-- ===== src/Identity/Symbols.antt =====
-- The normal form of a symbol in identity/security_id.py.
use a_share_analysis.Common.{
  ◌≡◌, refl, ℕ, true, false, [], ◌∷◌, ok, Text, codes, is_digit, strip, upper, arith, text_eq,
  is_space, to_upper, drop_space, ap, reverse, map,
}
use a_share_analysis.Identity.{
  is_symbol, bare_symbol, normalize_symbol, without_suffix, drop_suffix, drop_prefix,
}

is_space-digit : (c : ℕ) → is_digit c ≡ true → is_space c ≡ false
unfolding is_digit is_space
is_space-digit c h = ground arith

to_upper-digit : (c : ℕ) → is_digit c ≡ true → to_upper c ≡ c
unfolding is_digit to_upper
to_upper-digit c h = ground arith

drop_space-digit : (c : ℕ) (s : Text) → is_digit c ≡ true → drop_space (c ∷ s) ≡ c ∷ s
unfolding drop_space
drop_space-digit c s h = rw (is_space-digit c h, drop_space) refl

module _ (a b c d e f : ℕ) where
  strip-line_feed :
      is_digit a ≡ true
      → strip (a ∷ b ∷ c ∷ d ∷ e ∷ f ∷ 10 ∷ codes ".SZ") ≡ a ∷ b ∷ c ∷ d ∷ e ∷ f ∷ 10 ∷ codes ".SZ"
  unfolding strip drop_space is_space
  strip-line_feed h =
      ap (λ x. reverse (drop_space (reverse x)))
        (drop_space-digit a (b ∷ c ∷ d ∷ e ∷ f ∷ 10 ∷ codes ".SZ") h)

  upper-line_feed :
      is_digit a ≡ true
      → is_digit b ≡ true
      → is_digit c ≡ true
      → is_digit d ≡ true
      → is_digit e ≡ true
      → is_digit f ≡ true
      → upper (a ∷ b ∷ c ∷ d ∷ e ∷ f ∷ 10 ∷ codes ".SZ") ≡ a ∷ b ∷ c ∷ d ∷ e ∷ f ∷ 10 ∷ codes ".SZ"
  unfolding upper
  upper-line_feed p q r s t u =
      let tail : map to_upper (10 ∷ codes ".SZ") ≡ 10 ∷ codes ".SZ" = unfold to_upper in refl in
      cc (
        tail,
        to_upper-digit a p,
        to_upper-digit b q,
        to_upper-digit c r,
        to_upper-digit d s,
        to_upper-digit e t,
        to_upper-digit f u,
      )

  bare_symbol-line_feed :
      bare_symbol (a ∷ b ∷ c ∷ d ∷ e ∷ f ∷ 10 ∷ codes ".SZ") ≡ a ∷ b ∷ c ∷ d ∷ e ∷ f ∷ 10 ∷ []
  unfolding bare_symbol without_suffix drop_suffix drop_prefix
  bare_symbol-line_feed = refl

  -- Six digits, a line feed and the suffix .SZ are accepted, and normalize to a text of seven
  -- characters: the six digits and the line feed.
  pub normalize_symbol-line_feed :
      is_digit a ≡ true
      → is_digit b ≡ true
      → is_digit c ≡ true
      → is_digit d ≡ true
      → is_digit e ≡ true
      → is_digit f ≡ true
      → normalize_symbol (a ∷ b ∷ c ∷ d ∷ e ∷ f ∷ 10 ∷ codes ".SZ")
        ≡ ok (a ∷ b ∷ c ∷ d ∷ e ∷ f ∷ 10 ∷ [])
  unfolding normalize_symbol
  normalize_symbol-line_feed p q r s t u =
      rw (strip-line_feed p, upper-line_feed p q r s t u, bare_symbol-line_feed)
        (unfold is_symbol text_eq in rw (p, q, r, s, t, u) refl)
