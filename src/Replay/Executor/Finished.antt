-- ===== src/Replay/Executor/Finished.antt =====
-- src/cua/replay/executor.py: what holds when a call returns, and that it does.
pub mod Ends
pub mod Steps
pub mod Remedies
pub mod Rounds
pub mod Whole
pub mod Results
use computer_use_automation.Base.{
  ℕ, suc, ◌+◌, ◌*◌, ◌≤◌, ◌≡◌, ◌∙◌, refl, arith, Bool, true, false, Option, none, some,
  if◌then◌else◌,
}
use mathlib.Core.Path.{subst}
use computer_use_automation.Domain.Predicates.{Inputs, evaluate}
use computer_use_automation.Domain.Capability.{Capability}
use computer_use_automation.Domain.Capability.Summary.{asks_for_human}
use computer_use_automation.Domain.Result.{code_among}
use computer_use_automation.Hitl.Lease.{Lease, ControlState, paused}
use computer_use_automation.Replay.Result.{
  RunStatus, FailureDetail, RunResult, shape_matches_status,
}
use computer_use_automation.Replay.Executor.State.{
  ReplayExecutor, Live, RunState, M, ◌>>=◌, continue_with, return, raise, Exit, value, raised,
  unfinished, lease_of, world_of, Surroundings,
}
use computer_use_automation.Replay.Executor.Stepping.{Progress, going, ended}
use computer_use_automation.Replay.Executor.Recovery.{next_step}

-- What a call gave, if it did not let an exception out; it has not run out of rounds.
unfoldable pub Holds : {W A : Type 0} → (A → Live W → Type 0) → Exit A × Live W → Type 0
Holds P (value a, v) = P a v
Holds P (raised, v) = Unit
Holds P (unfinished, v) = ⊥

module _ {W : Type 0} where
  pub Holds-value :
      {A : Type 0} (P : A → Live W → Type 0) (a : A) (v : Live W) → P a v → Holds P (value a, v)
  unfolding Holds
  Holds-value P a v h = h

  pub Holds-raised : {A : Type 0} (P : A → Live W → Type 0) (v : Live W) → Holds P (raised, v)
  unfolding Holds
  Holds-raised P v = tt

  pub record Gives {A : Type 0} (P : A → Live W → Type 0) (m : M W A) : Type 0 where
    pub at : (v : Live W) → Holds P (m v)

  pub Gives-return :
      {A : Type 0} (P : A → Live W → Type 0) (a : A) → ((v : Live W) → P a v) → Gives P (return a)
  Gives-return P a h = record { at = λ v. Holds-value P a v (h v) }

  pub Gives-raise : {A : Type 0} (P : A → Live W → Type 0) → Gives P raise
  Gives-raise P = record { at = λ v. Holds-raised P v }

  pub Holds-continue :
      {A B : Type 0} (P : A → Live W → Type 0) (Q : B → Live W → Type 0) (f : A → M W B)
      (r : Exit A × Live W)
      → Holds P r
      → ((a : A) (v : Live W) → P a v → Holds Q (f a v))
      → Holds Q (continue_with f r)
  unfolding Holds
  Holds-continue P Q f (value a, v) p k = k a v p
  Holds-continue P Q f (raised, v) p k = tt
  Holds-continue P Q f (unfinished, v) p k = absurd p

  pub Gives-bind :
      {A B : Type 0} (P : A → Live W → Type 0) (Q : B → Live W → Type 0) (m : M W A) (f : A → M W B)
      → Gives P m
      → ((a : A) (v : Live W) → P a v → Holds Q (f a v))
      → Gives Q (m >>= f)
  Gives-bind P Q m f p k = record { at = λ v. Holds-continue P Q f (m v) (p.at v) k }

  pub Holds-map :
      {A : Type 0} (P Q : A → Live W → Type 0) (r : Exit A × Live W)
      → Holds P r
      → ((a : A) (v : Live W) → P a v → Q a v)
      → Holds Q r
  unfolding Holds
  Holds-map P Q (value a, v) p k = k a v p
  Holds-map P Q (raised, v) p k = tt
  Holds-map P Q (unfinished, v) p k = p

  pub Gives-if :
      {A : Type 0} (P : A → Live W → Type 0) (b : Bool) (m n : M W A)
      → (b ≡ true → Gives P m)
      → (b ≡ false → Gives P n)
      → Gives P (if b then m else n)
  Gives-if P true m n p q = p refl
  Gives-if P false m n p q = q refl

  pub Gives-either :
      {A : Type 0} (P : A → Live W → Type 0) (b : Bool) (m n : M W A)
      → Gives P m
      → Gives P n
      → Gives P (if b then m else n)
  Gives-either P true m n p q = p
  Gives-either P false m n p q = q

  pub Holds-if :
      {A : Type 0} (P : A → Live W → Type 0) (b : Bool) (m n : M W A) (v : Live W)
      → (b ≡ true → Holds P (m v))
      → (b ≡ false → Holds P (n v))
      → Holds P ((if b then m else n) v)
  Holds-if P true m n v p q = p refl
  Holds-if P false m n v p q = q refl

  -- Nobody may act: an operator has been asked for.
  abbrev pub Paused : Live W → Type 0
  Paused v = (l : Lease) → lease_of v.site ≡ some l → l.state ≡ paused

  -- A run that ends for an operator names a failure that its capability escalates, and its session, if
  -- it is supervised, is paused.
  pub record Handed (c : Capability) (r : RunResult) (v : Live W) : Type 0 where
    pub detail : FailureDetail
    pub explained : r.error ≡ some detail
    pub triggered : code_among detail.code c.escalation.triggers ≡ true
    pub asked : asks_for_human c.escalation.disposition ≡ true
    pub paused_session : Paused v

abbrev pub is_success : RunStatus → Bool
is_success RunStatus.success = true
is_success _ = false

abbrev pub for_human : RunStatus → Bool
for_human RunStatus.needs_human = true
for_human _ = false

-- The clock is past a wait's deadline by the last of its polls, of which there is one at least.
pub record IsPatient {W : Type 0} (around : Surroundings W) : Type 0 where
  pub polls : (n timeout : ℕ) → 1 ≤ around.polls_for n timeout
  pub passes :
      (n timeout : ℕ)
      → around.monotonic n + timeout * 1000 ≤ around.monotonic (n + around.polls_for n timeout * 2)

-- A later state of the same run.
pub record IsLater (st t : RunState) : Type 0 where
  pub same_capability : t.capability ≡ st.capability
  pub same_inputs : t.inputs ≡ st.inputs
  pub same_parents : t.parents ≡ st.parents
  pub more : st.recovery_attempts ≤ t.recovery_attempts

pub IsLater-same :
    (st t : RunState)
    → t.capability ≡ st.capability
    → t.inputs ≡ st.inputs
    → t.parents ≡ st.parents
    → t.recovery_attempts ≡ st.recovery_attempts
    → IsLater st t
IsLater-same st t c i p a = record {
  same_capability = c;
  same_inputs = i;
  same_parents = p;
  more = omega (arith, a);
}

pub IsLater-refl : (st : RunState) → IsLater st st
IsLater-refl st = IsLater-same st st refl refl refl refl

pub IsLater-trans : {st t u : RunState} → IsLater st t → IsLater t u → IsLater st u
IsLater-trans p q = record {
  same_capability = q.same_capability ∙ p.same_capability;
  same_inputs = q.same_inputs ∙ p.same_inputs;
  same_parents = q.same_parents ∙ p.same_parents;
  more = omega (arith, p.more, q.more);
}

abbrev pub goes_on : Progress → Bool
goes_on (going t) = true
goes_on (ended t r) = false

-- Up to `cap` recoveries may have been attempted where a run goes on.
module _ {W : Type 0} (x : ReplayExecutor W) (cap : ℕ) where
  -- The screen at the end satisfies the checkpoint.
  abbrev pub Shows : Capability → Inputs → Live W → Type 0
  Shows c inputs v =
      evaluate x.text_host c.checkpoint (x.dispatcher.driver.observe (world_of v)) inputs ≡ true

  -- What is true of any result of a run of `c` on `inputs` with `spent` recoveries attempted before.
  pub record IsSettled (c : Capability) (inputs : Inputs) (spent : ℕ) (r : RunResult) (v : Live W)
      : Type 0 where
    pub shaped : shape_matches_status r ≡ true
    pub handed : for_human r.status ≡ true → Handed c r v
    pub verified : is_success r.status ≡ true → Shows c inputs v
    pub bounded : r.recovery_attempts ≤ suc cap
    pub counted : is_success r.status ≡ true → spent ≤ r.recovery_attempts

  abbrev pub Settled : RunState → RunResult → Live W → Type 0
  Settled st = IsSettled st.capability st.inputs st.recovery_attempts

  -- What a part of a run makes of a state.
  abbrev pub After : RunState → Progress → Live W → Type 0
  After st (going t) v = IsLater st t × (t.recovery_attempts ≤ cap)
  After st (ended t r) v =
      Settled st r v
      × (is_success r.status ≡ false)
      × IsLater st t
      × (t.recovery_attempts ≤ suc cap)

  pub Settled-later :
      {st t : RunState} (r : RunResult) (v : Live W) → IsLater st t → Settled t r v → Settled st r v
  Settled-later {st} {t} r v p k =
      subst (λ inputs. IsSettled st.capability inputs st.recovery_attempts r v) p.same_inputs
        (subst (λ c. IsSettled c t.inputs st.recovery_attempts r v) p.same_capability
          (record {
            shaped = k.shaped;
            handed = k.handed;
            verified = k.verified;
            bounded = k.bounded;
            counted = λ e. omega (arith, p.more, k.counted e);
          }))

  pub After-later :
      {st t : RunState} (p : Progress) (v : Live W) → IsLater st t → After t p v → After st p v
  After-later (going u) v p k = (IsLater-trans p (k.0), k.1)
  After-later (ended u r) v p k = (Settled-later r v p (k.0), k.1, IsLater-trans p (k.2), k.3)

  pub Gives-later :
      {st t : RunState} (m : M W Progress) → IsLater st t → Gives (After t) m → Gives (After st) m
  Gives-later {st} {t} m p k = record {
    at = λ v. Holds-map (After t) (After st) (m v) (k.at v) (λ q w. After-later q w p);
  }

  pub Gives-going :
      (st t : RunState)
      → IsLater st t
      → t.recovery_attempts ≤ cap
      → Gives (After st) (return (going t))
  Gives-going st t p h = Gives-return (After st) (going t) (λ v. (p, h))

  -- One part of a run after another.
  pub Gives-next :
      (st : RunState) (m : M W Progress) (go : RunState → M W Progress)
      → Gives (After st) m
      → ((t : RunState) → IsLater st t → t.recovery_attempts ≤ cap → Gives (After t) (go t))
      → Gives (After st) (m >>= λ p. next_step p go)
  Gives-next st m go k later = Gives-bind (After st) (After st) m _ k at_progress
    where
      at_progress : (p : Progress) (v : Live W) → After st p v → Holds (After st) (next_step p go v)
      at_progress (going t) v h =
          Holds-map (After t) (After st) _ ((later t (h.0) (h.1)).at v)
            (λ p w. After-later p w (h.0))
      at_progress (ended t r) v h = Holds-value (After st) (ended t r) v h
