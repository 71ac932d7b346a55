-- ===== src/Voice/Transcript.antt =====
-- What a transcript makes `VoiceHost` of bridge/deskhelm_voice_host/policy.py send.
use Prim.Native.String.{◌++◌ as join}
use deskhelm.Prelude.{
  ℕ, ◌≡◌, refl, sym, ◌∙◌, true, String, string_eq, false, List, [], ◌∷◌, none, some, contains,
  Bool-cases, Option-cases, inl, inr,
}
use deskhelm.Dict.{lookup}
use deskhelm.Protocol.Fields.{strip}
use deskhelm.Protocol.Command.{Action}
use deskhelm.Core.Events.{Decision}
use deskhelm.Core.Frames.{TicketView}
use deskhelm.Voice.Client.{ConsoleState, Reply, approvals, result_text}
use deskhelm.Voice.Policy.{
  VoiceTarget, Transcript, Call, key_of, approval_phrases, discard_phrases, decision_action, ask,
  decide, transcript,
}

-- The commands that a transcript means, by the phrase that it is, with the key of each command.
pub data Means (state : ConsoleState) (now : ℕ) (target : VoiceTarget) (heard : Transcript)
    : Action → String → Type 0 where
  approval :
      (t : TicketView)
      → contains discard_phrases (strip heard.normalized_text) ≡ false
      → lookup (strip heard.normalized_text) approval_phrases ≡ some Decision.approve
      → approvals (key_of target) now state ≡ t ∷ []
      → Means state now target heard
          (Action.approve t.approval_id)
          (join "voice-approval:" heard.transcript_id)
  rejection :
      (t : TicketView)
      → contains discard_phrases (strip heard.normalized_text) ≡ false
      → lookup (strip heard.normalized_text) approval_phrases ≡ some Decision.reject
      → approvals (key_of target) now state ≡ t ∷ []
      → Means state now target heard
          (Action.reject t.approval_id)
          (join "voice-approval:" heard.transcript_id)
  prompt :
      contains discard_phrases (strip heard.normalized_text) ≡ false
      → lookup (strip heard.normalized_text) approval_phrases ≡ none
      → Means state now target heard
          (Action.submit_prompt heard.normalized_text)
          (join "voice-transcript:" heard.transcript_id)

-- The calls that a transcript becomes: the command that it means, and what is said of it if it is
-- refused; or, where it means none, something that is said.
pub data Sends (state : ConsoleState) (now : ℕ) (target : VoiceTarget) (heard : Transcript)
    (reply : Call → Reply) : List Call → Type 0 where
  accepted :
      {action : Action} {id : String}
      → Means state now target heard action id
      → (reply (Call.command (key_of target) action id)).accepted ≡ true
      → Sends state now target heard reply (Call.command (key_of target) action id ∷ [])
  refused :
      {action : Action} {id : String}
      → Means state now target heard action id
      → (reply (Call.command (key_of target) action id)).accepted ≡ false
      → Sends state now target heard reply (
          Call.command (key_of target) action id
          ∷ Call.say target (result_text (reply (Call.command (key_of target) action id)).code)
          ∷ [])
  nothing :
      (text : String)
      → ((action : Action) (id : String) → Means state now target heard action id → ⊥)
      → Sends state now target heard reply (Call.say target text ∷ [])

module _ (state : ConsoleState) (now : ℕ) (target : VoiceTarget) (heard : Transcript)
    (reply : Call → Reply) where
  ask-Sends :
      (action : Action) (id : String)
      → Means state now target heard action id
      → Sends state now target heard reply (ask target action id reply)
  unfolding ask
  ask-Sends action id h =
      elim (Bool-cases (reply (Call.command (key_of target) action id)).accepted) [
        | inl fine ↦ rw fine (Sends.accepted h fine)
        | inr not_fine ↦ rw not_fine (Sends.refused h not_fine)
      ]

  decided-Sends :
      (d : Decision) (t : TicketView)
      → contains discard_phrases (strip heard.normalized_text) ≡ false
      → lookup (strip heard.normalized_text) approval_phrases ≡ some d
      → approvals (key_of target) now state ≡ t ∷ []
      → Sends state now target heard reply (
          ask target
            (decision_action d t.approval_id)
            (join "voice-approval:" heard.transcript_id)
            reply)
  unfolding decision_action
  decided-Sends Decision.approve t kept h q = ask-Sends _ _ (Means.approval t kept h q)
  decided-Sends Decision.reject t kept h q = ask-Sends _ _ (Means.rejection t kept h q)

  -- An approval phrase means nothing unless there is exactly one approval.
  means_none :
      (d : Decision) (ts : List TicketView)
      → lookup (strip heard.normalized_text) approval_phrases ≡ some d
      → approvals (key_of target) now state ≡ ts
      → ((t : TicketView) → ts ≡ t ∷ [] → ⊥)
      → (action : Action) (id : String) → Means state now target heard action id
      → ⊥
  means_none d ts h q several action id (Means.approval t kept is one) = several t (sym q ∙ one)
  means_none d ts h q several action id (Means.rejection t kept is one) = several t (sym q ∙ one)
  means_none d ts h q several action id (Means.prompt kept is) = cc

  decide-Sends :
      (d : Decision) (ts : List TicketView)
      → contains discard_phrases (strip heard.normalized_text) ≡ false
      → lookup (strip heard.normalized_text) approval_phrases ≡ some d
      → approvals (key_of target) now state ≡ ts
      → Sends state now target heard reply (decide target d heard.transcript_id ts reply)
  unfolding decide
  decide-Sends d [] kept h q = Sends.nothing _ (means_none d [] h q (λ t e. cc))
  decide-Sends d (t ∷ []) kept h q = decided-Sends d t kept h q
  decide-Sends d (t ∷ u ∷ ts) kept h q = Sends.nothing _ (means_none d (t ∷ u ∷ ts) h q (λ t e. cc))

  means_discarded :
      contains discard_phrases (strip heard.normalized_text) ≡ true
      → (action : Action) (id : String) → Means state now target heard action id
      → ⊥
  means_discarded h action id (Means.approval t kept is one) = cc
  means_discarded h action id (Means.rejection t kept is one) = cc
  means_discarded h action id (Means.prompt kept is) = cc

  -- A transcript becomes one command for its target: a phrase of approval approves, and one of
  -- rejection rejects, the one approval that can be answered, and any other text than these and the
  -- discarded ones is a prompt of that text; if the command is refused, that is said to the target.
  -- Where the text is discarded, or there are several approvals or none to decide, nothing but words
  -- for the target comes of it.
  pub transcript-Sends :
      Sends state now target heard reply (transcript state now reply target heard)
  unfolding transcript
  transcript-Sends = elim (Bool-cases (contains discard_phrases (strip heard.normalized_text))) [
    | inl discarded ↦ rw (discarded, transcript) (Sends.nothing _ (means_discarded discarded))
    | inr kept ↦ elim (Option-cases (lookup (strip heard.normalized_text) approval_phrases)) [
      | inr (d, phrase) ↦
          rw (kept, transcript, phrase)
            (decide-Sends d (approvals (key_of target) now state) kept phrase refl)
      | inl other ↦ rw (kept, transcript, other) (ask-Sends _ _ (Means.prompt kept other))
    ]
  ]
