-- ===== src/Reach.antt =====
-- Runs of a component: the states that a step relation reaches, and invariants along them.
module _ {S : Type 0} (Step : S → S → Type 0) where
  pub data Reach (s : S) : S → Type 0 where
    here : Reach s s
    next : {t u : S} → Reach s t → Step t u → Reach s u

  pub Reach_induction :
      (P : S → Type 0) → ((t u : S) → Step t u → P t → P u) → (s t : S) → P s → Reach s t → P t
  Reach_induction P keep s t p here = p
  Reach_induction P keep s u p (next {t} r st) = keep t u st (Reach_induction P keep s t p r)
