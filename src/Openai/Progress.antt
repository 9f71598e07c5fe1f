-- ===== src/Openai/Progress.antt =====
-- What the loop over the events of a stream does to the state of its caller.
use gopher_agent_platform.Prelude.{
  ◌≡◌, sym, ap, ◌∙◌, Option, List, [], ◌∷◌, ◌++◌, append_assoc, append-nil, inl, inr, Option-cases,
  arith,
}
use gopher_agent_platform.Exec.{ok, Exec, Result-cases}
use gopher_agent_platform.Errors.{Err}
use gopher_agent_platform.Text.{Text}
use gopher_agent_platform.Openai.Client.{
  Response, Event, text_delta, completed, failed, incomplete, other, Request, Sdk,
}
use gopher_agent_platform.Openai.Stream.{read_events, stream_response}

module _ {S : Type 0} (on_delta : Text → Exec S (Unit {0})) (error : List Event → Option Err) where
  -- What each call of `on_delta` keeps, the loop keeps.
  pub read_events_keeps :
      (P : S → Type 0)
      → ((d : Text) (s : S) → P s → P (on_delta d s).1)
      → (content : Text) (events : List Event) (s : S) → P s
      → P (read_events on_delta error content events s).1
  unfolding read_events
  read_events_keeps P step content [] s h = h
  read_events_keeps P step content (text_delta d ∷ events) s h =
      elim (Result-cases (on_delta d s).0) [
        | inl (_, p) ↦ rw p (read_events_keeps P step (content ++ d) events _ (step d s h))
        | inr (e, p) ↦ rw p (step d s h)
      ]
  read_events_keeps P step content (completed r ∷ events) s h = h
  read_events_keeps P step content (failed ∷ events) s h = h
  read_events_keeps P step content (incomplete ∷ events) s h = h
  read_events_keeps P step content (other ∷ events) s h =
      read_events_keeps P step content events s h

  -- Where the loop succeeds, the caller has seen the text it gives.
  pub read_events_seen :
      (seen : S → Text)
      → ((d : Text) (s : S) → (on_delta d s).0 ≡ ok tt → seen (on_delta d s).1 ≡ seen s ++ d)
      → (before content : Text) (events : List Event) (s : S) (a : Response × Text)
      → seen s ≡ before ++ content
      → (read_events on_delta error content events s).0 ≡ ok a
      → seen (read_events on_delta error content events s).1 ≡ before ++ a.1
  unfolding read_events
  read_events_seen seen step before content [] s a h e = elim (Option-cases (error [])) [
    | inl p ↦ let q = rw p at e in cc
    | inr (f, p) ↦ let q = rw p at e in cc
  ]
  read_events_seen seen step before content (text_delta d ∷ events) s a h e =
      elim (Result-cases (on_delta d s).0) [
        | inl (_, p) ↦
            let more = step d s p ∙ ap (λ t. t ++ d) h ∙ append_assoc before content d in
            rw p (read_events_seen seen step before (content ++ d) events _ a more (rw p at e))
        | inr (f, p) ↦ let q = rw p at e in cc
      ]
  read_events_seen seen step before content (completed r ∷ events) s a h e =
      elim (Option-cases (error events)) [
        | inl p ↦ let q = rw p at e in ground (arith, q, h)
        | inr (f, p) ↦ let q = rw p at e in cc
      ]
  read_events_seen seen step before content (failed ∷ events) s a h e = ground (arith, e)
  read_events_seen seen step before content (incomplete ∷ events) s a h e = ground (arith, e)
  read_events_seen seen step before content (other ∷ events) s a h e =
      read_events_seen seen step before content events s a h e

module _ {S : Type 0} (on_delta : Text → Exec S (Unit {0})) (sdk : Sdk) where
  pub stream_response_keeps :
      (P : S → Type 0)
      → ((d : Text) (s : S) → P s → P (on_delta d s).1)
      → (request : Request) (s : S) → P s
      → P (stream_response sdk on_delta request s).1
  unfolding stream_response
  stream_response_keeps P step request s h =
      let stream = sdk.stream request in
      read_events_keeps on_delta stream.error P step [] stream.events s h

  pub stream_response_seen :
      (seen : S → Text)
      → ((d : Text) (s : S) → (on_delta d s).0 ≡ ok tt → seen (on_delta d s).1 ≡ seen s ++ d)
      → (request : Request) (s : S) (a : Response × Text)
      → (stream_response sdk on_delta request s).0 ≡ ok a
      → seen (stream_response sdk on_delta request s).1 ≡ seen s ++ a.1
  unfolding stream_response
  stream_response_seen seen step request s a e =
      let stream = sdk.stream request in
      let first = sym (append-nil (seen s)) in
      elim (Option-cases stream.close) [
        | inl p ↦
            read_events_seen on_delta stream.error seen step (seen s) [] stream.events s a first
              (rw p at e)
        | inr (c, p) ↦
            elim (Result-cases (read_events on_delta stream.error [] stream.events s).0) [
              | inl (b, q) ↦ let z = rw (p, q) at e in cc
              | inr (b, q) ↦ let z = rw (p, q) at e in cc
            ]
      ]
