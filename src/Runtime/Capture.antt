-- ===== src/Runtime/Capture.antt =====
-- src/cua/runtime/capture.py: the state around a failure, with sensitive regions obscured. The driver's
-- picture, which may raise, and the names of the files written are arguments.
use computer_use_automation.Base.{
  ℕ, String, Bool, false, ◌&&◌, Option, none, some, List, [], ◌∷◌, any, is_empty, if◌then◌else◌,
  Result, ok, err,
}
use computer_use_automation.Domain.Actor.{system}
use computer_use_automation.Domain.Snapshot.{UiNode, UiSnapshot}
use computer_use_automation.Domain.Capability.{Capability, is_set}
use computer_use_automation.Domain.Capability.Summary.{sensitive_names}
use computer_use_automation.Domain.Text.{codes, occurs_in}
use computer_use_automation.Evidence.Json.{Json, Fields, str, null, field, end}
use computer_use_automation.Evidence.Redact.{RedactHost}
use computer_use_automation.Evidence.Bus as Bus
use computer_use_automation.Evidence.Bus.{EvidenceBus, emit}
use computer_use_automation.Runtime.Command.{Session}

-- `str.lower` on code points, `save_snapshot`, and `screenshot` of the regions of some nodes with
-- `save_screenshot`.
pub record CaptureHost (W : Type 0) : Type 0 where
  pub lower : List ℕ → List ℕ
  pub save_snapshot : UiSnapshot → String → ℕ → String
  pub screenshot : List String → String → ℕ → W → Result String String

pub record CaptureRefs : Type 0 where
  pub snapshot_ref : Option String
  pub screenshot_ref : Option String

abbrev pub optional_text : Option String → Json
optional_text none = null
optional_text (some s) = str s

abbrev ref_of : Result String String → Option String
ref_of (ok file) = some file
ref_of (err e) = none

module _ {W : Type 0} (host : CaptureHost W) (redaction : RedactHost) where
  abbrev names_sensitive : List String → Option String → Bool
  names_sensitive names none = false
  names_sensitive names (some label) =
      is_set label && any (λ n. occurs_in (host.lower (codes n)) (host.lower (codes label))) names

  unfoldable pub sensitive_nodes : List String → List UiNode → List String
  sensitive_nodes names [] = []
  sensitive_nodes names (n ∷ ns) =
      let rest = sensitive_nodes names ns in
      if names_sensitive names n.name then n.node_id ∷ rest else rest

  -- `sensitive_regions`, as the nodes whose bounds are asked for.
  unfoldable pub sensitive_regions : UiSnapshot → Capability → List String
  unfolding sensitive_nodes sensitive_names
  sensitive_regions seen c =
      if is_empty (sensitive_names c) then [] else sensitive_nodes (sensitive_names c) seen.nodes

  abbrev note : Fields → EvidenceBus → EvidenceBus
  note payload b = emit redaction b Bus.note system 0 payload

  abbrev pub note_unseen : Result String String → EvidenceBus → EvidenceBus
  note_unseen (ok file) b = b
  note_unseen (err e) b =
      note (field "note" (str "screenshot capture failed") (field "error" (str e) end)) b

  abbrev note_capture :
      String → String → UiSnapshot → String → Result String String → EvidenceBus → EvidenceBus
  note_capture label reason seen file shot b =
      note
        (field "note" (str label) (
          field "reason" (str reason) (
            field "url" (str seen.url) (
              field "snapshot_ref" (str file)
                (field "screenshot_ref" (optional_text (ref_of shot)) end)))))
        b

  -- The first text is the label, and the second the note that names it.
  unfoldable pub capture :
      String → String → Capability → String → UiSnapshot → Session W → CaptureRefs × Session W
  capture label noted c reason seen s =
      let file = host.save_snapshot seen label s.evidence.sequence in
      let shot = host.screenshot (sensitive_regions seen c) label s.evidence.sequence s.world in
      (
        record { snapshot_ref = some file; screenshot_ref = ref_of shot },
        record s {
          evidence = note_capture noted reason seen file shot (note_unseen shot s.evidence);
        },
      )
