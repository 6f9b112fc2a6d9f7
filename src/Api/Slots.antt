-- ===== src/Api/Slots.antt =====
-- The array of sessions: what is looked up in it, and what replacing an entry keeps.
use mathlib.Core.Path.{subst}
use rocm_validation_suite.Prelude.{
  inr, ◌∙◌, ap, ℕ, zero, suc, ◌+◌, ◌≡◌, ◌⊎◌, refl, inl, Bool, true, false, Option, none, some, List,
  [], ◌∷◌, arith,
}
use rocm_validation_suite.Api.Requests.{takes_property, is_ready}
use rocm_validation_suite.Api.State.{
  SessionState, idle, created, ready, initiated, inprogress, completed, Result, in_progress,
  complete, result_state, RvsSession, cleared, is_idle, rvs_get_session_instance,
  rvs_validate_session, at, replace, repeat_cleared,
}

abbrev pub is_set : Option ℕ → Bool
is_set none = false
is_set (some f) = true

-- The session at this place: it is free and clear, or has the place's id and a callback.
abbrev pub IsSlot : ℕ → RvsSession → Type 0
IsSlot n s = (s ≡ cleared) ⊎ ((s.id ≡ n) × (is_idle s.state ≡ false) × (is_set s.callback ≡ true))

-- The sessions from the place n on.
abbrev pub Slots : ℕ → List RvsSession → Type 0
Slots n [] = Unit
Slots n (s ∷ sessions) = IsSlot n s × Slots (suc n) sessions

pub Slots-at : (n i : ℕ) (ss : List RvsSession) → Slots n ss → IsSlot (n + i) (at i ss)
unfolding at
Slots-at n i [] h = inl refl
Slots-at n zero (s ∷ ss) h = subst (λ m. IsSlot m s) {x = n} (omega arith) h.0
Slots-at n (suc i) (s ∷ ss) h =
    subst (λ m. IsSlot m (at i ss)) {x = suc n + i} (omega arith) (Slots-at (suc n) i ss h.1)

pub Slots-replace :
    (n i : ℕ) (s' : RvsSession) (ss : List RvsSession)
    → Slots n ss
    → IsSlot (n + i) s'
    → Slots n (replace i s' ss)
unfolding replace
Slots-replace n i s' [] h k = tt
Slots-replace n zero s' (s ∷ ss) h k =
    (subst (λ m. IsSlot m s') {x = n + zero} (omega arith) k, h.1)
Slots-replace n (suc i) s' (s ∷ ss) h k = (
  h.0,
  Slots-replace (suc n) i s' ss h.1 (subst (λ m. IsSlot m s') {x = n + suc i} (omega arith) k),
)

pub Slots-repeat_cleared : (n k : ℕ) → Slots n (repeat_cleared k)
unfolding repeat_cleared
Slots-repeat_cleared n zero = tt
Slots-repeat_cleared n (suc k) = (inl refl, Slots-repeat_cleared (suc n) k)

-- The place found in a longer array.
pub validate_suc :
    (id i : ℕ) (s : RvsSession) (ss : List RvsSession)
    → rvs_validate_session id (s ∷ ss) ≡ some (suc i)
    → rvs_validate_session id ss ≡ some i
unfolding rvs_validate_session
validate_suc id i s ss e = ground (arith, e)

pub validate_zero :
    (id : ℕ) (s : RvsSession) (ss : List RvsSession)
    → rvs_validate_session id (s ∷ ss) ≡ some zero
    → s.id ≡ id
unfolding rvs_validate_session
validate_zero id s ss e = ground (arith, e)

pub validate_at :
    (id i : ℕ) (ss : List RvsSession) → rvs_validate_session id ss ≡ some i → (at i ss).id ≡ id
unfolding rvs_validate_session at
validate_at id i [] e = absurd cc
validate_at id zero (s ∷ ss) e = validate_zero id s ss e
validate_at id (suc i) (s ∷ ss) e = validate_at id i ss (validate_suc id i s ss e)

instance_suc :
    (i : ℕ) (s : RvsSession) (ss : List RvsSession)
    → rvs_get_session_instance (s ∷ ss) ≡ some (suc i)
    → rvs_get_session_instance ss ≡ some i
unfolding rvs_get_session_instance
instance_suc i s ss e = ground (arith, e)

instance_zero :
    (s : RvsSession) (ss : List RvsSession)
    → rvs_get_session_instance (s ∷ ss) ≡ some zero
    → is_idle s.state ≡ true
unfolding rvs_get_session_instance
instance_zero s ss e = ground (arith, e)

pub instance_at :
    (i : ℕ) (ss : List RvsSession)
    → rvs_get_session_instance ss ≡ some i
    → is_idle (at i ss).state ≡ true
unfolding rvs_get_session_instance at
instance_at i [] e = absurd cc
instance_at zero (s ∷ ss) e = instance_zero s ss e
instance_at (suc i) (s ∷ ss) e = instance_at i ss (instance_suc i s ss e)

-- A session in use whose id and callback stay, in another state than idle.
pub used :
    (n : ℕ) (s s' : RvsSession)
    → IsSlot n s
    → is_idle s.state ≡ false
    → s'.id ≡ s.id
    → s'.callback ≡ s.callback
    → is_idle s'.state ≡ false
    → IsSlot n s'
used n s s' (inl free) h ei ec k = absurd cc
used n s s' (inr (named, busy, set)) h ei ec k = inr (ei ∙ named, k, ap is_set ec ∙ set)

pub busy_of : (state : SessionState) → takes_property state ≡ true → is_idle state ≡ false
busy_of idle h = absurd cc
busy_of created h = refl
busy_of ready h = absurd cc
busy_of initiated h = absurd cc
busy_of inprogress h = absurd cc
busy_of completed h = refl

pub busy_ready : (state : SessionState) → is_ready state ≡ true → is_idle state ≡ false
busy_ready idle h = absurd cc
busy_ready created h = absurd cc
busy_ready ready h = refl
busy_ready initiated h = absurd cc
busy_ready inprogress h = absurd cc
busy_ready completed h = absurd cc

pub busy_result : (result : Result) → is_idle (result_state result) ≡ false
busy_result (in_progress log) = refl
busy_result (complete log) = refl
