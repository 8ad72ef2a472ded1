-- ===== src/Canonical/Bridged.antt =====
-- The rows of every bridge that canonical/identity.py can build.
use a_share_analysis.Common.{
  ◌≡◌, refl, sym, subst, String, true, Option, none, some, List, [], ◌∷◌, any, Text, text_eq,
  text_eq_iff, ok, >>=-eq-ok, ok_injective, Memᴰ, Memᴰ-cons, Memᴰ-append, mem_of-any, inl, inr,
  Bool-cases, arith, Memᴰ-append_left, Memᴰ-append_right,
}
use a_share_analysis.Identity.{Date}
use a_share_analysis.Canonical.Bridge.{
  approved_event, IdentityEntry, MasterRow, clean, is_other_date, entry_for, entry_eq, add_entry,
  add_row, add_rows, identity_bridge,
}
use a_share_analysis.Canonical.Coded.{
  old_entry, new_entry, Coded, old_interval, new_interval, symbols_known, event_entry-eq_ok,
  entry_for-Coded,
}

module _ (uuid5 : Text → String) where
  abbrev pub AllCoded : List IdentityEntry → Type 0
  AllCoded es = (e : IdentityEntry) → Memᴰ e es → Coded uuid5 e

  mem-add_entry :
      (es : List IdentityEntry) (x : Option IdentityEntry) (e : IdentityEntry)
      → Memᴰ e es
      → Memᴰ e (add_entry es x)
  unfolding add_entry
  mem-add_entry es none e m = m
  mem-add_entry es (some x) e m = elim (Bool-cases (any (entry_eq x) es)) [
    | inl f ↦ rw f m
    | inr f ↦ rw f (Memᴰ-append_left (x ∷ []) m)
  ]

  add_entry-AllCoded :
      (es : List IdentityEntry) (x : IdentityEntry)
      → AllCoded es
      → Coded uuid5 x
      → AllCoded (add_entry es (some x))
  unfolding add_entry
  add_entry-AllCoded es x a c e m = elim (Bool-cases (any (entry_eq x) es)) [
    | inl f ↦ a e (rw f at m)
    | inr f ↦ elim (Memᴰ-append es (x ∷ []) (rw f at m)) [
      | inl n ↦ a e n
      | inr n ↦ elim (Memᴰ-cons n) [
        | inl same ↦ subst (Coded uuid5) (sym same) c
        | inr never ↦ elim never [ ]
      ]
    ]
  ]

  add_maybe-AllCoded :
      (es : List IdentityEntry) (x : Option IdentityEntry)
      → AllCoded es
      → (symbol : Text) (d : Option Date) → entry_for uuid5 symbol d ≡ ok x
      → AllCoded (add_entry es x)
  add_maybe-AllCoded es none a symbol d h = unfold add_entry in a
  add_maybe-AllCoded es (some x) a symbol d h =
      add_entry-AllCoded es x a (entry_for-Coded uuid5 symbol d x h)

  add_row-AllCoded :
      (row : MasterRow) (es out : List IdentityEntry)
      → AllCoded es
      → add_row uuid5 es row ≡ ok out
      → AllCoded out
  unfolding add_row
  add_row-AllCoded row es out a h = elim (Bool-cases (text_eq (clean row.provider_symbol) [])) [
    | inl e ↦ subst AllCoded (ok_injective (rw e at h)) a
    | inr e ↦
        let (d, f, g) = >>=-eq-ok (row.list_date) _ (rw e at h) in
        let (x, k, l) = >>=-eq-ok (entry_for uuid5 (clean row.provider_symbol) d) _ g in
        subst AllCoded (ok_injective l) (add_maybe-AllCoded es x a (clean row.provider_symbol) d k)
  ]

  add_rows-AllCoded :
      (rows : List MasterRow) (es out : List IdentityEntry)
      → AllCoded es
      → add_rows uuid5 es rows ≡ ok out
      → AllCoded out
  unfolding add_rows
  add_rows-AllCoded [] es out a h = subst AllCoded (ok_injective h) a
  add_rows-AllCoded (row ∷ rows) es out a h =
      let (more, f, g) = >>=-eq-ok (add_row uuid5 es row) _ h in
      add_rows-AllCoded rows more out (add_row-AllCoded row es more a f) g

  Coded-entries : Coded uuid5 (old_entry uuid5) × Coded uuid5 (new_entry uuid5)
  unfolding text_eq
  Coded-entries = ((inr refl, inl refl), (inl refl, inr refl))

  entry_eq-symbols :
      (a b : IdentityEntry)
      → entry_eq a b ≡ true
      → text_eq a.provider_symbol b.provider_symbol ≡ true
  unfolding entry_eq
  entry_eq-symbols a b h = ground arith

  mem_of-add_old :
      (es : List IdentityEntry)
      → AllCoded es
      → Memᴰ (old_entry uuid5) (add_entry es (some (old_entry uuid5)))
  unfolding add_entry
  mem_of-add_old es a = elim (Bool-cases (any (entry_eq (old_entry uuid5)) es)) [
    | inr f ↦ rw f (Memᴰ-append_right es (Memᴰ.head refl))
    | inl f ↦
        let (y, m, g) = mem_of-any (entry_eq (old_entry uuid5)) es f in
        let same =
          (text_eq_iff approved_event.old_provider_symbol y.provider_symbol).0
            (entry_eq-symbols (old_entry uuid5) y g) in
        elim (a y m).0 [
          | inl other ↦ cc (
            other,
            (text_eq_iff y.provider_symbol approved_event.old_provider_symbol).1 (sym same),
          )
          | inr is_old ↦ rw f (subst (λ x. Memᴰ x es) is_old m)
        ]
  ]

  mem_of-add_new :
      (es : List IdentityEntry)
      → AllCoded es
      → Memᴰ (new_entry uuid5) (add_entry es (some (new_entry uuid5)))
  unfolding add_entry
  mem_of-add_new es a = elim (Bool-cases (any (entry_eq (new_entry uuid5)) es)) [
    | inr f ↦ rw f (Memᴰ-append_right es (Memᴰ.head refl))
    | inl f ↦
        let (y, m, g) = mem_of-any (entry_eq (new_entry uuid5)) es f in
        let same =
          (text_eq_iff approved_event.new_provider_symbol y.provider_symbol).0
            (entry_eq-symbols (new_entry uuid5) y g) in
        elim (a y m).1 [
          | inl other ↦ cc (
            other,
            (text_eq_iff y.provider_symbol approved_event.new_provider_symbol).1 (sym same),
          )
          | inr is_new ↦ rw f (subst (λ x. Memᴰ x es) is_new m)
        ]
  ]

  pub record Bridged (bridge : List IdentityEntry) : Type 0 where
    pub coded : AllCoded bridge
    pub has_old : Memᴰ (old_entry uuid5) bridge
    pub has_new : Memᴰ (new_entry uuid5) bridge

  entries_for_event :
      (entry_for uuid5 approved_event.old_provider_symbol none ≡ ok (some (old_entry uuid5)))
      × (entry_for uuid5 approved_event.new_provider_symbol none ≡ ok (some (new_entry uuid5)))
  unfolding entry_for is_other_date
  entries_for_event = (
    rw ((symbols_known uuid5).0, old_interval uuid5, event_entry-eq_ok uuid5) refl,
    rw ((symbols_known uuid5).1, new_interval uuid5, event_entry-eq_ok uuid5) refl,
  )

  pub identity_bridge-Bridged :
      (rows : List MasterRow) (bridge : List IdentityEntry)
      → identity_bridge uuid5 rows ≡ ok bridge
      → Bridged bridge
  unfolding identity_bridge
  identity_bridge-Bridged rows bridge h =
      let (entries, f, g) = >>=-eq-ok (add_rows uuid5 [] rows) _ h in
      let a = add_rows-AllCoded rows [] entries (λ e m. elim m [ ]) f in
      let whole : add_entry (add_entry entries (some (old_entry uuid5))) (some (new_entry uuid5))
          ≡ bridge =
        ok_injective (rw (entries_for_event.0, entries_for_event.1) at g) in
      let b = add_entry-AllCoded entries (old_entry uuid5) a Coded-entries.0 in
      subst Bridged whole (record {
        coded = add_entry-AllCoded _ (new_entry uuid5) b Coded-entries.1;
        has_old = mem-add_entry _ (some (new_entry uuid5)) _ (mem_of-add_old entries a);
        has_new = mem_of-add_new _ b;
      })
