-- ===== src/Identity/Keys.antt =====
-- The identity keys of identity/security_id.py, read back: a key tells its exchange, asset type,
-- symbol, whether it is a fallback, and its date.
use a_share_analysis.Common.{
  ◌≡◌, refl, sym, ap, ◌∙◌, subst, ℕ, Bool, true, not, [], ◌∷◌, ◌++◌, reverse, append_assoc,
  reverse-append, reverse-cons, reverse-reverse, Text, ◌==◌, ◌&&◌, arith, inl, inr, Bool-cases,
  if◌then◌else◌,
}
use a_share_analysis.Identity.{key_text}

-- The text before the first colon, and the text after it
unfoldable pub split_colon : Text → Text × Text
split_colon [] = ([], [])
split_colon (c ∷ s) =
    let (before, after) = split_colon s in if c == b':' then ([], s) else (c ∷ before, after)

abbrev pub is_plain : Text → Bool
is_plain [] = true
is_plain (c ∷ s) = not (c == b':') && is_plain s

split_colon-plain : (s t : Text) → is_plain s ≡ true → split_colon (s ++ b':' ∷ t) ≡ (s, t)
unfolding split_colon
split_colon-plain [] t h = refl
split_colon-plain (c ∷ s) t h = elim (Bool-cases (c == b':')) [
  | inl e ↦ cc (rw e at h)
  | inr e ↦ let later = split_colon-plain s t (rw e at h) in rw e (ap (λ p. (c ∷ p.0, p.1)) later)
]

reverse_around : (c : ℕ) (s t : Text) → reverse (s ++ c ∷ t) ≡ reverse t ++ c ∷ reverse s
reverse_around c s t =
    reverse-append s (c ∷ t)
    ∙ ap (λ x. x ++ reverse s) (reverse-cons c t)
    ∙ append_assoc (reverse t) (c ∷ []) (reverse s)

is_plain-append : (s t : Text) → is_plain s ≡ true → is_plain t ≡ true → is_plain (s ++ t) ≡ true
is_plain-append [] t h k = k
is_plain-append (c ∷ s) t h k = ground (arith, is_plain-append s t)

is_plain-reverse : (s : Text) → is_plain s ≡ true → is_plain (reverse s) ≡ true
is_plain-reverse [] h = refl
is_plain-reverse (c ∷ s) h =
    subst (λ x. is_plain x ≡ true) (sym (reverse-cons c s))
      (is_plain-append (reverse s) (c ∷ []) (is_plain-reverse s (ground arith)) (ground arith))

abbrev pub KeyParts : Type 0
KeyParts = Text × (Text × (Text × Text))

unfoldable pub key_parts : Text → KeyParts
key_parts key =
    let (last, rest) = split_colon (reverse key) in
    let (symbol, first) = split_colon rest in
    let (exchange, asset_type) = split_colon (reverse first) in
    (exchange, (asset_type, (reverse symbol, reverse last)))

pub key_parts-key_text :
    (exchange asset_type symbol last : Text)
    → is_plain exchange ≡ true
    → is_plain symbol ≡ true
    → is_plain last ≡ true
    → key_parts (key_text exchange asset_type symbol last)
      ≡ (exchange, (asset_type, (symbol, last)))
unfolding key_parts key_text
key_parts-key_text exchange asset_type symbol last e s l =
    let turned =
      reverse_around b':' ((exchange ++ b':' ∷ asset_type) ++ b':' ∷ symbol) last
      ∙ ap (λ x. reverse last ++ b':' ∷ x)
          (reverse_around b':' (exchange ++ b':' ∷ asset_type) symbol) in
    let one =
      split_colon-plain (reverse last)
        (reverse symbol ++ b':' ∷ reverse (exchange ++ b':' ∷ asset_type))
        (is_plain-reverse last l) in
    let two =
      split_colon-plain (reverse symbol) (reverse (exchange ++ b':' ∷ asset_type))
        (is_plain-reverse symbol s) in
    let three = split_colon-plain exchange asset_type e in
    cc (
      turned,
      one,
      two,
      three,
      reverse-reverse last,
      reverse-reverse symbol,
      reverse-reverse (exchange ++ b':' ∷ asset_type),
    )
