-- ===== src/Tests/Domain.antt =====
-- src/cua/domain/predicates.py, targeting/resolver.py and evidence/bus.py on the screen with a button.
use computer_use_automation.Base.{◌≡◌, ◌↔◌, refl, true, [], ◌∷◌}
use computer_use_automation.Domain.Predicates.{
  Predicate, text_present, all_of, nil, cons, negation, evaluate, text_content,
}
use computer_use_automation.Domain.Text.{occurs_in, normalize}
use computer_use_automation.Domain.Predicates.Meaning.{Holds, evaluate-iff-Holds}
use computer_use_automation.Domain.Target.{semantic_exact, is_replay_forbidden}
use computer_use_automation.Targeting.Resolver.{Resolution, resolve, ladder, generator_of}
use computer_use_automation.Targeting.Resolver.Unique.{FirstFound, resolve-FirstFound}
use computer_use_automation.Evidence.Json.{end}
use computer_use_automation.Evidence.Bus as Bus
use computer_use_automation.Evidence.Bus.{Event}
use computer_use_automation.Domain.Actor.{system}
use computer_use_automation.Tests.Data.{
  text_host, screen, save_button, save_target, strategies, resolver,
}

abbrev shows_save : Predicate
shows_save = all_of (cons (text_present "save") (cons (negation (text_present "deleted")) nil))

shows_save_holds : evaluate text_host shows_save screen [] ≡ true
unfolding evaluate occurs_in normalize text_content
shows_save_holds = refl

evaluate-iff-Holds_example :
    (evaluate text_host shows_save screen [] ≡ true) ↔ Holds text_host screen [] shows_save
evaluate-iff-Holds_example = evaluate-iff-Holds text_host screen [] shows_save

abbrev found_save : Resolution
found_save = record {
  node = save_button;
  strategy = semantic_exact;
  candidates_considered = 1;
  fingerprint_matched = true;
  strategies_tried = semantic_exact ∷ [];
}

resolve-FirstFound_example :
    FirstFound strategies resolver save_target screen (ladder resolver) found_save
unfolding resolve ladder generator_of is_replay_forbidden
resolve-FirstFound_example =
    resolve-FirstFound strategies resolver save_target screen {x = found_save} refl

abbrev note : Event
note = record {
  seq = 1;
  run_id = "r";
  event = Bus.note;
  actor = system;
  lease_epoch = 0;
  payload = end;
}
