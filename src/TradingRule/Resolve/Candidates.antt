-- ===== src/TradingRule/Resolve/Candidates.antt =====
-- Which rows are candidates for _select_candidates of spike/trading_rule.py, described without
-- its tests.
use a_share_analysis.Common.{
  ℕ, ◌≤◌, ◌≡◌, refl, sym, subst, ◌⊎◌, true, List, [], ◌∷◌, any, arith, le→leb, Memᴰ, any-of_mem,
  mem_of-any, Text, text_in, text_eq, text_eq_iff,
}
use a_share_analysis.TradingRule.Rows.{TradingRuleRow}
use a_share_analysis.TradingRule.Resolve.{pattern_match, is_candidate}

-- The pattern has the code's length, and each place of it is `x` or the code's character.
pub data Matches : Text → Text → Type 0 where
  done : Matches [] []
  place :
      {p c : ℕ} {ps cs : Text} → (p ≡ b'x') ⊎ (p ≡ c) → Matches ps cs → Matches (p ∷ ps) (c ∷ cs)

pub pattern_match-Matches : (p s : Text) → pattern_match p s ≡ true → Matches p s
unfolding pattern_match
pattern_match-Matches [] [] h = done
pattern_match-Matches [] (c ∷ s) h = cc
pattern_match-Matches (x ∷ p) [] h = cc
pattern_match-Matches (x ∷ p) (c ∷ s) h =
    place (ground arith) (pattern_match-Matches p s (ground arith))

pub Matches-pattern_match : (p s : Text) → Matches p s → pattern_match p s ≡ true
unfolding pattern_match
Matches-pattern_match [] [] done = refl
Matches-pattern_match [] (c ∷ s) m = elim m [ ]
Matches-pattern_match (x ∷ p) [] m = elim m [ ]
Matches-pattern_match (x ∷ p) (c ∷ s) (place e m) = ground (arith, Matches-pattern_match p s m)

-- The rule is in force for the exchange, the bare code and the day.
pub record IsInForce (exch bare : Text) (day : ℕ) (r : TradingRuleRow) : Type 0 where
  pub listed : Memᴰ exch r.exchanges
  pub pattern : Text
  pub has_pattern : Memᴰ pattern r.code_patterns
  pub fits : Matches pattern bare
  pub started : r.effective_from ≤ day
  pub not_over : day ≤ r.effective_to

mem_of-text_in : (t : Text) (ts : List Text) → text_in t ts ≡ true → Memᴰ t ts
unfolding text_in
mem_of-text_in t ts h =
    let (u, m, e) = mem_of-any (text_eq t) ts h in
    subst (λ v. Memᴰ v ts) (sym ((text_eq_iff t u).0 e)) m

text_in-of_mem : (t : Text) (ts : List Text) → Memᴰ t ts → text_in t ts ≡ true
unfolding text_in
text_in-of_mem t ts m = any-of_mem (text_eq t) t ts m ((text_eq_iff t t).1 refl)

module _ (exch bare : Text) (day : ℕ) (r : TradingRuleRow) where
  pub is_candidate-IsInForce : is_candidate exch bare day r ≡ true → IsInForce exch bare day r
  unfolding is_candidate
  is_candidate-IsInForce h =
      let found : any (λ p. pattern_match p bare) r.code_patterns ≡ true = ground arith in
      let (p, m, e) = mem_of-any (λ p. pattern_match p bare) r.code_patterns found in
      record {
        listed = mem_of-text_in exch r.exchanges (ground arith);
        pattern = p;
        has_pattern = m;
        fits = pattern_match-Matches p bare e;
        started = ground arith;
        not_over = ground arith;
      }

  pub IsInForce-is_candidate : IsInForce exch bare day r → is_candidate exch bare day r ≡ true
  unfolding is_candidate
  IsInForce-is_candidate f =
      let e = text_in-of_mem exch r.exchanges f.listed in
      let p =
        any-of_mem (λ p. pattern_match p bare) f.pattern r.code_patterns f.has_pattern
          (Matches-pattern_match f.pattern bare f.fits) in
      rw (e, p, le→leb _ _ f.started, le→leb _ _ f.not_over)
