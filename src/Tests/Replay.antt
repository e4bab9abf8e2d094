-- ===== src/Tests/Replay.antt =====
-- src/cua/replay/ on the screen with a button.
use computer_use_automation.Base.{◌≡◌, refl, true, ltb, none, some, [], ◌∷◌}
use computer_use_automation.Domain.Text.{occurs_in, normalize}
use computer_use_automation.Domain.Predicates.{text_present, text_content, evaluate}
use computer_use_automation.Domain.Capability.{
  InputSpec, integer, string, Capability, WaitPolicy, Outcome, predicate,
}
use computer_use_automation.Replay.Classify.{business_outcome, classify, first_detected}
use computer_use_automation.Replay.Classify.Reading.{Reads, classify-Reads}
use computer_use_automation.Replay.Wait.{wait_for}
use computer_use_automation.Replay.Wait.Polling.{Decides, wait_for-Decides}
use computer_use_automation.Base.{◌↔◌, false, ok, err, lookup, insert}
use computer_use_automation.Domain.Predicates.{literal}
use computer_use_automation.Replay.Inputs.{
  InputHost, missing_required, Supplied, declared_of, validate_inputs,
}
use computer_use_automation.Replay.Inputs.Specified.{Declares}
use computer_use_automation.Replay.Inputs.Contract.{Known, Bound, validate_inputs-Bound}
use computer_use_automation.Tests.Data.{text_host, screen, save_form}

abbrev form_shown : Outcome
form_shown = record {
  code = "form_shown";
  detect = text_present "save";
  terminal = true;
  returns = [];
}

abbrev with_outcome : Capability
with_outcome = record save_form { outcomes = form_shown ∷ [] }

outcome_read : (classify text_host screen [] with_outcome none true).observation ≡ business_outcome
unfolding classify first_detected evaluate occurs_in normalize text_content
outcome_read = refl

classify-Reads_example :
    Reads text_host screen [] with_outcome none true
      (classify text_host screen [] with_outcome none true).observation
      (classify text_host screen [] with_outcome none true).outcome
      (classify text_host screen [] with_outcome none true).recovery
classify-Reads_example = classify-Reads text_host screen [] with_outcome none true

abbrev for_saved : WaitPolicy
for_saved = record {
  for_what = predicate;
  timeout_ms = 100;
  until = some (text_present "saved ok");
}

-- The text never comes, and the clock is past the deadline from the third poll on.
wait_for-Decides_example :
    Decides text_host [] for_saved none
      (λ n. screen)
      (λ n. ltb 1 n)
      0
      3
      (wait_for text_host [] for_saved none (λ n. screen) (λ n. ltb 1 n) 3)
wait_for-Decides_example =
    wait_for-Decides text_host [] for_saved none (λ n. screen) (λ n. ltb 1 n) 2 refl

abbrev input_host : InputHost
input_host = record { fullmatch = λ p t. true; show_reference = λ v. "" }

abbrev member_number : InputSpec
member_number = record {
  name = "member";
  value_type = integer;
  required = true;
  pattern' = none;
  enum = none;
  default = none;
  sensitive = false;
}

abbrev branch : InputSpec
branch = record {
  name = "branch";
  value_type = string;
  required = false;
  pattern' = none;
  enum = some ("north" ∷ "south" ∷ []);
  default = some (literal "north");
  sensitive = false;
}

abbrev arguments : Supplied
arguments = ("member", some "12") ∷ []

arguments_accepted :
    validate_inputs input_host (member_number ∷ branch ∷ []) arguments
    ≡ ok (("member", "12") ∷ ("branch", "north") ∷ [])
unfolding validate_inputs lookup insert
arguments_accepted = refl

null_refused :
    validate_inputs input_host (member_number ∷ []) (("member", none) ∷ [])
    ≡ err (missing_required "member")
unfolding validate_inputs lookup insert
null_refused = refl

validate_inputs-Bound_example :
    Declares (member_number ∷ branch ∷ []) (declared_of (member_number ∷ branch ∷ []))
    × ((validate_inputs input_host (member_number ∷ branch ∷ []) arguments
          ≡ ok (("member", "12") ∷ ("branch", "north") ∷ []))
        ↔ (Known (declared_of (member_number ∷ branch ∷ [])) arguments
            × Bound input_host arguments
                (declared_of (member_number ∷ branch ∷ []))
                (("member", "12") ∷ ("branch", "north") ∷ [])))
validate_inputs-Bound_example =
    validate_inputs-Bound input_host arguments (member_number ∷ branch ∷ [])
      (("member", "12") ∷ ("branch", "north") ∷ [])
