-- ===== src/Gateway/Follows/Threads.antt =====
-- What the two threads of voice/deskhelm_voice/gateway.py emit goes on from what was heard.
use deskhelm.Prelude.{
  ℕ, Bool, true, false, not, ◌||◌, List, [], ◌∷◌, Option, none, some, ◌≡◌, inl, inr, refl, sym,
  subst, if-keeps, option_eq, nat_eq, string_eq,
}
use deskhelm.Voice.Policy.{VoiceTarget, Transcript}
use deskhelm.Gateway.{Gateway, Player, SpeechItem, QueuedSpeech, Effect, is_set}
use deskhelm.Gateway.Ptt.{
  clear_ptt, Trouble, finish_ptt, fail_ptt, Returned, captured, transcribed, delivered, handed_over,
  trouble_event, is_target,
}
use deskhelm.Gateway.Speech.{pick, take_next, Played, end_speech, spoken, ending_event}
use deskhelm.Gateway.Protocol

-- The effects of a step go on from what was heard, and what is heard then is where the threads stand.
pub record Follows (k : Protocol.KeyHeard) (s : Protocol.SpeechHeard) (out : Gateway × List Effect)
    : Type 0 where
  pub key : Protocol.KeyHeard
  pub speech : Protocol.SpeechHeard
  pub heard : Protocol.Heard k s out.1 key speech
  pub key_tracks : Protocol.KeyTracks out.0.worker key
  pub speech_tracks : Protocol.SpeechTracks out.0.player speech

player-finish_ptt : (target : VoiceTarget) (g : Gateway) → (finish_ptt target g).player ≡ g.player
unfolding finish_ptt clear_ptt
player-finish_ptt target g =
    if-keeps (λ (after : Gateway). after.player ≡ g.player) (is_target g.ptt_target target) refl
      refl

module _ (g : Gateway) (s : Protocol.SpeechHeard)
    (spoken_so_far : Protocol.SpeechTracks g.player s) where
  -- An activation ends with one event.
  gives_up :
      (k : Protocol.KeyHeard) (target : VoiceTarget) (trouble : Trouble)
      → ((trouble : Trouble)
          → Protocol.KeyHears k (Effect.emits (trouble_event target trouble)) Protocol.quiet)
      → Follows k s (fail_ptt target trouble g)
  unfolding fail_ptt finish_ptt
  gives_up k target trouble hears = record {
    key = Protocol.quiet;
    speech = s;
    heard = Protocol.Heard.key (hears trouble) Protocol.Heard.nothing;
    key_tracks = inl refl;
    speech_tracks =
        subst (λ p. Protocol.SpeechTracks p s) (sym (player-finish_ptt target g)) spoken_so_far;
  }

  pub captured-Follows :
      (how : Returned (Unit {0})) (target : VoiceTarget)
      → Follows (Protocol.speaking target) s (captured how target g)
  unfolding captured
  captured-Follows (Returned.raised trouble) target =
      gives_up (Protocol.speaking target) target trouble Protocol.KeyHears.breaks_off
  captured-Follows (Returned.returned audio) target =
      if-keeps (Follows (Protocol.speaking target) s)
        (is_set g.ptt_cancel || not (is_target g.ptt_target target))
        (gives_up (Protocol.speaking target) target Trouble.cancelled Protocol.KeyHears.breaks_off)
        (record {
          key = Protocol.awaited target;
          speech = s;
          heard = Protocol.Heard.key Protocol.KeyHears.transcribes Protocol.Heard.nothing;
          key_tracks = refl;
          speech_tracks = spoken_so_far;
        })

  pub transcribed-Follows :
      (how : Returned Transcript) (target : VoiceTarget)
      → Follows (Protocol.awaited target) s (transcribed how target g)
  unfolding transcribed
  transcribed-Follows (Returned.raised trouble) target =
      gives_up (Protocol.awaited target) target trouble Protocol.KeyHears.gives_up
  transcribed-Follows (Returned.returned transcript) target =
      if-keeps (Follows (Protocol.awaited target) s) (is_set g.ptt_cancel)
        (gives_up (Protocol.awaited target) target Trouble.cancelled Protocol.KeyHears.gives_up)
        (record {
          key = Protocol.read target transcript;
          speech = s;
          heard = Protocol.Heard.key Protocol.KeyHears.shows Protocol.Heard.nothing;
          key_tracks = refl;
          speech_tracks = spoken_so_far;
        })

  pub delivered-Follows :
      (raises : Bool) (target : VoiceTarget) (transcript : Transcript)
      → Follows (Protocol.read target transcript) s (delivered raises target transcript g)
  unfolding delivered finish_ptt handed_over
  delivered-Follows raises target transcript = delivers g.prompt_sink raises
    where
      tracks : Protocol.SpeechTracks (finish_ptt target g).player s
      tracks =
          subst (λ p. Protocol.SpeechTracks p s) (sym (player-finish_ptt target g)) spoken_so_far

      delivers :
          (sink : Option ℕ) (raises : Bool)
          → Follows
              (Protocol.read target transcript)
              s
              (finish_ptt target g, handed_over sink raises target transcript)
      delivers none raises = record {
        key = Protocol.quiet;
        speech = s;
        heard = Protocol.Heard.key Protocol.KeyHears.has_no_sink Protocol.Heard.nothing;
        key_tracks = inl refl;
        speech_tracks = tracks;
      }
      delivers (some sink) true = record {
        key = Protocol.quiet;
        speech = s;
        heard =
            Protocol.Heard.key Protocol.KeyHears.hands_over
              (Protocol.Heard.key Protocol.KeyHears.is_refused Protocol.Heard.nothing);
        key_tracks = inl refl;
        speech_tracks = tracks;
      }
      delivers (some sink) false = record {
        key = Protocol.prompted target;
        speech = s;
        heard = Protocol.Heard.key Protocol.KeyHears.hands_over Protocol.Heard.nothing;
        key_tracks = inr (target, refl);
        speech_tracks = tracks;
      }

module _ (g : Gateway) (k : Protocol.KeyHeard) (heard_so_far : Protocol.KeyTracks g.worker k) where
  pub ends :
      (s : Protocol.SpeechHeard) (how : Played) (item : SpeechItem)
      → Protocol.SpeechHears s (Effect.emits (ending_event how item)) Protocol.silent
      → Follows k s (end_speech how item g)
  unfolding end_speech
  ends s how item hears = record {
    key = k;
    speech = Protocol.silent;
    heard = Protocol.Heard.speech hears Protocol.Heard.nothing;
    key_tracks = heard_so_far;
    speech_tracks = refl;
  }

  pub take_next-Follows :
      (queue : List QueuedSpeech)
      → g.player ≡ Player.waits
      → Follows k Protocol.silent (take_next queue g)
  unfolding take_next
  take_next-Follows [] at = record {
    key = k;
    speech = Protocol.silent;
    heard = Protocol.Heard.nothing;
    key_tracks = heard_so_far;
    speech_tracks = subst (λ p. Protocol.SpeechTracks p Protocol.silent) (sym at) refl;
  }
  take_next-Follows (first ∷ rest) at = record {
    key = k;
    speech = Protocol.announced (pick first rest).0.item;
    heard = Protocol.Heard.speech Protocol.SpeechHears.begins Protocol.Heard.nothing;
    key_tracks = heard_so_far;
    speech_tracks = refl;
  }

  pub spoken-Follows :
      (how : Played) (item : SpeechItem) → Follows k (Protocol.announced item) (spoken how item g)
  unfolding spoken
  spoken-Follows Played.done item = record {
    key = k;
    speech = Protocol.audible item;
    heard = Protocol.Heard.speech Protocol.SpeechHears.is_ready Protocol.Heard.nothing;
    key_tracks = heard_so_far;
    speech_tracks = refl;
  }
  spoken-Follows Played.cancelled item =
      ends (Protocol.announced item) Played.cancelled item
        (Protocol.SpeechHears.ends_early Played.cancelled)
  spoken-Follows Played.broken item =
      ends (Protocol.announced item) Played.broken item
        (Protocol.SpeechHears.ends_early Played.broken)
