-- ===== src/Hitl/Broker/Policed.antt =====
-- src/cua/hitl/broker.py: a person's action goes the way of any other.
use computer_use_automation.Base.{
  ℕ, String, ◌≡◌, refl, ◌⊎◌, inl, inr, Bool, true, false, ◌&&◌, not, Option, none, some, is_some,
  Bool-cases, if◌then◌else◌, Result, ok, err, arith,
}
use computer_use_automation.Domain.Actor.{human}
use computer_use_automation.Domain.Action.{Action, is_raw_input}
use computer_use_automation.Hitl.Lease.{human_control, is_state, held_by, assert_held, LeaseError}
use computer_use_automation.Hitl.Lease.Stale.{assert_held-iff-held_by}
use computer_use_automation.Hitl.Broker.{
  acted, perform, held_then, human_action, confirmed_note, confirm_action,
}
use computer_use_automation.Hitl.Handoff.{
  SessionBroker, BrokerTexts, BrokerError, raw_input_needs_handoff,
}
use computer_use_automation.Runtime.Dispatcher.{observe}
use computer_use_automation.Runtime.Command.{Setup, Session, Command, DispatchOutcome}
use computer_use_automation.Runtime.Dispatcher.Untouched.{Acted, execute-Acted}

module _ {W : Type 0} (d : Setup W) (texts : BrokerTexts) (b : SessionBroker W) (id : String)
    (action : Action) where
  -- The person's command, on the screen that the broker has just looked at.
  abbrev pub command : Bool → Command
  command confirmed = record {
    action = action;
    snapshot = d.driver.observe b.session.world;
    actor = human;
    session_id = b.session_id;
    lease_epoch = b.lease.epoch;
    expected_epoch = some b.lease.epoch;
    capability = none;
    declared_risk = none;
    confirmed = confirmed;
    grant = none;
  }

  abbrev Through : Bool → W → Type 0
  Through confirmed after =
      (after ≡ b.session.world) ⊎ Acted d id (command confirmed) b.session.world after

  acted-Through :
      (confirmed : Bool) (o : Option DispatchOutcome × Session W)
      → Through confirmed o.1.world
      → Through confirmed (acted d texts b o).1.session.world
  unfolding acted
  acted-Through confirmed (none, s) h = h
  acted-Through confirmed (some o, s) h = h

  perform-Through :
      (confirmed : Bool) → Through confirmed (perform d texts b id action confirmed).1.session.world
  unfolding perform observe
  perform-Through confirmed =
      acted-Through confirmed _
        (elim (execute-Acted d id (command confirmed) (observe d b.session).1) [
          | inl same ↦ inl same
          | inr (fresh, done) ↦ inr done
        ])

  -- A permitted step of a person who holds the session.
  abbrev Holds : ℕ → Type 0
  Holds now = held_by b.lease now human b.lease.epoch ≡ true

  held_then-world :
      (now : ℕ) (confirmed : Bool) (next : Result BrokerError DispatchOutcome × SessionBroker W)
      → Through confirmed next.1.session.world
      → ((held_then d texts (assert_held b.lease now human b.lease.epoch) b next).1.session.world
          ≡ b.session.world)
        ⊎ (Holds now
            × Acted d id
                (command confirmed)
                b.session.world
                (held_then d texts
                  (assert_held b.lease now human b.lease.epoch)
                  b
                  next).1.session.world)
  unfolding held_then
  held_then-world now confirmed next t =
      at_held (assert_held b.lease now human b.lease.epoch)
        ((assert_held-iff-held_by b.lease now human b.lease.epoch).0)
    where
      at_held :
          (h : Option LeaseError)
          → ((h ≡ none) → Holds now)
          → ((held_then d texts h b next).1.session.world ≡ b.session.world)
            ⊎ (Holds now
                × Acted d id
                    (command confirmed)
                    b.session.world
                    (held_then d texts h b next).1.session.world)
      at_held (some e) k = inl refl
      at_held none k = elim t [ inl same ↦ inl same | inr a ↦ inr (k refl, a) ]

  -- An operator's action leaves the surface as it was; or the session is under human control, the
  -- operator's hold is current, and policy permitted the command, unconfirmed and as a person's, on the
  -- node that it aims at, and the surface has seen what policy minted for that, and that alone, with the
  -- id of the node that the command's target resolved to on the screen, if it has a target.
  pub human_action-Acted :
      (now : ℕ)
      → ((human_action d texts b now id action).1.session.world ≡ b.session.world)
        ⊎ ((b.lease.state ≡ human_control)
            × (held_by b.lease now human b.lease.epoch ≡ true)
            × Acted d id
                (command false)
                b.session.world
                (human_action d texts b now id action).1.session.world)
  unfolding human_action
  human_action-Acted now = elim (Bool-cases (is_state b.lease.state human_control)) [
    | inr e ↦ rw e (inl refl)
    | inl e ↦
        elim (held_then-world now false
          (if is_raw_input action && not (is_some b.handoff)
            then (err raw_input_needs_handoff, b)
            else perform d texts b id action false)
          (guarded (is_raw_input action && not (is_some b.handoff)))) [
            | inl same ↦ rw e (inl same)
            | inr (h, a) ↦ rw e (inr (ground arith, h, a))
          ]
  ]
    where
      guarded :
          (x : Bool)
          → Through false
              (if x
                then (err raw_input_needs_handoff, b)
                else perform d texts b id action false).1.session.world
      guarded true = inl refl
      guarded false = perform-Through false

  -- A confirmed action leaves the surface as it was; or the operator's hold is current, and policy
  -- permitted the command, confirmed and as a person's, on the node that it aims at, and the surface
  -- has seen what policy minted for that, and that alone, with the id of the node that the command's
  -- target resolved to on the screen, if it has a target.
  pub confirm_action-Acted :
      (now : ℕ)
      → ((confirm_action d texts b now id action).1.session.world ≡ b.session.world)
        ⊎ ((held_by b.lease now human b.lease.epoch ≡ true)
            × Acted d id
                (command true)
                b.session.world
                (confirm_action d texts b now id action).1.session.world)
  unfolding confirm_action
  confirm_action-Acted now =
      held_then-world now true _ (noted (perform d texts b id action true) (perform-Through true))
    where
      noted :
          (r : Result BrokerError DispatchOutcome × SessionBroker W)
          → Through true r.1.session.world
          → Through true (confirmed_note d texts action r).1.session.world
      noted (err e, c) t = t
      noted (ok o, c) t = t
