-- ===== src/Canonical/CodeChange.antt =====
-- The approved code change of canonical/identity.py in every bridge that can be built.
use a_share_analysis.Common.{
  ◌≡◌, refl, ap, ◌∙◌, subst, ℕ, zero, suc, String, Bool, true, false, not, ◌&&◌, none, some, List,
  keep, any, Text, text_eq, text_eq_iff, ok, Memᴰ, mem_of-keep, mem-keep, inl, inr, if◌then◌else◌,
  upper, strip,
}
use a_share_analysis.Identity.{Date}
use a_share_analysis.Canonical.Bridge.{
  approved_event, IdentityEntry, MasterRow, date_leb, identity_bridge,
}
use a_share_analysis.Canonical.Lookup.{entries_of, valid_at, resolve_among, resolve}
use a_share_analysis.Canonical.Copies.{copies, copies_of, resolve_among-copies}
use a_share_analysis.Canonical.Coded.{event_id, old_entry, new_entry}
use a_share_analysis.Canonical.Bridged.{identity_bridge-Bridged}

and-true : (b : Bool) → (b && true) ≡ b
and-true true = refl
and-true false = refl

module _ (uuid5 : Text → String) where
  resolved_copies :
      (n : ℕ) (x : IdentityEntry) (day : Date)
      → Memᴰ x (copies n x)
      → resolve_among day (copies n x) ≡ (if valid_at day x then some x.security_id else none)
  resolved_copies zero x day m = elim m [ ]
  resolved_copies (suc n) x day m = resolve_among-copies day x n

  resolve_one :
      (bridge : List IdentityEntry) (x : IdentityEntry) (day : Date)
      → Memᴰ x bridge
      → ((e : IdentityEntry)
          → Memᴰ e bridge
          → text_eq e.provider_symbol x.provider_symbol ≡ true
          → e ≡ x)
      → resolve_among day (entries_of bridge x.provider_symbol)
        ≡ (if valid_at day x then some x.security_id else none)
  unfolding entries_of
  resolve_one bridge x day m only =
      let p = λ (e : IdentityEntry). text_eq e.provider_symbol x.provider_symbol in
      let here = mem-keep p x bridge m ((text_eq_iff x.provider_symbol x.provider_symbol).1 refl) in
      let (n, e) =
        copies_of x (keep p bridge) (λ y k. let (l, q) = mem_of-keep p y bridge k in only y l q) in
      ap (resolve_among day) e ∙ resolved_copies n x day (subst (Memᴰ x) e here)

  qualified :
      (bridge : List IdentityEntry) (day : Date)
      → (resolve bridge approved_event.old_provider_symbol day
          ≡ resolve_among day (entries_of bridge approved_event.old_provider_symbol))
        × (resolve bridge approved_event.new_provider_symbol day
            ≡ resolve_among day (entries_of bridge approved_event.new_provider_symbol))
  unfolding resolve any upper strip
  qualified bridge day = (refl, refl)

  -- In every bridge that can be built, whatever the rows of the security master, the old symbol of the
  -- approved code change resolves to the id of the change from its list date until the day before the
  -- change, the new symbol resolves to the same id from the change on, and on other days neither does.
  pub resolve_code_change :
      (rows : List MasterRow) (bridge : List IdentityEntry) (day : Date)
      → identity_bridge uuid5 rows ≡ ok bridge
      → (resolve bridge approved_event.old_provider_symbol day ≡ (
          if date_leb approved_event.original_list_date day
            && not (date_leb approved_event.effective_from day)
          then some (event_id uuid5)
          else none))
        × (resolve bridge approved_event.new_provider_symbol day
            ≡ (if date_leb approved_event.effective_from day then some (event_id uuid5) else none))
  unfolding valid_at
  resolve_code_change rows bridge day h =
      let b = identity_bridge-Bridged uuid5 rows bridge h in
      let q = qualified bridge day in
      (
        q.0
            ∙ resolve_one bridge (old_entry uuid5) day b.has_old
                (λ e m t. elim (b.coded e m).0 [ inl f ↦ cc (f, t) | inr same ↦ same ]),
        q.1
            ∙ resolve_one bridge (new_entry uuid5) day b.has_new
                (λ e m t. elim (b.coded e m).1 [ inl f ↦ cc (f, t) | inr same ↦ same ])
            ∙ ap (λ t. if t then some (event_id uuid5) else none)
                (and-true (date_leb approved_event.effective_from day)),
      )
