-- ===== src/Connection/Negotiation/Agreement.antt =====
-- A client and a server that negotiate with each other.
use libamqp.Prelude.{
  ℕ, ◌^◌, ◌<◌, ◌≡◌, ◌≢◌, ◌⊎◌, inl, inr, refl, ap, ◌∙◌, true, false, Option, none, some, List, [],
  ◌∷◌, arith, ◌==◌, if◌then◌else◌, Bool-cases, if_true, if_false, ==→eq,
}
use libamqp.Prelude.Outcome.{bind_returns, Outcome, returns, ◌>>=◌, or_stops}
use libamqp.Buffer.{Buffer, check_free_space}
use libamqp.Connection.Negotiator.{encode_version, decode_version}
use libamqp.Connection.Negotiator.Version.{decode-encode_version}
use libamqp.Connection.Negotiation.{
  initialized, negotiated, rejected, waiting_for_broker_response, waiting_on_client_request,
  waiting_to_send_server_response, Call, commence_read, reset_read_buffer, write_buffer, confirmed,
  rejected_with, requested, Negotiator, call_back, write_version, start_while_initialized,
  wait_while_initialized, read_done_while_waiting_for_broker_response,
  read_done_while_waiting_on_client_request, send_while_waiting_to_send_server_response, start,
  wait, send, read_done,
}

-- The buffer that has been written last, and the version that has been asked for last.
unfoldable pub written_by : List Call → Option Buffer
written_by [] = none
written_by (write_buffer b ∷ calls) = some b
written_by (_ ∷ calls) = written_by calls

unfoldable pub asked_of : List Call → Option ℕ
asked_of [] = none
asked_of (requested v ∷ calls) = some v
asked_of (_ ∷ calls) = asked_of calls

-- What the client has written, the server reads, and answers with the version that it chooses; what
-- the server has written, the client reads.
unfoldable pub respond :
    Buffer → (ℕ → ℕ) → Negotiator → Negotiator → Outcome (Negotiator × Negotiator)
respond fresh choose server client = or_stops (written_by client.calls) >>= λ sent.
    read_done fresh server.state sent 8 server >>= λ s2. or_stops (asked_of s2.calls) >>= λ asked.
    send fresh s2.state (choose asked) s2 >>= λ s3. or_stops (written_by s3.calls) >>= λ answer.
    read_done fresh client.state answer 8 client >>= λ c2. returns (c2, s3)

-- The server waits and the client starts.
unfoldable pub exchange :
    Buffer → (ℕ → ℕ) → ℕ → Negotiator → Negotiator → Outcome (Negotiator × Negotiator)
exchange fresh choose version client server = wait fresh server.state server >>= λ s1.
    start fresh client.state version client >>= respond fresh choose s1

abbrev waiting_server : Negotiator → Negotiator
waiting_server n = record n {
  state = waiting_on_client_request;
  preferred_version = 0;
  confirm = false;
  reject = false;
  request = true;
  calls = commence_read 8 ∷ n.calls;
}

abbrev started_client : ℕ → Buffer → Negotiator → Negotiator
started_client v sent n = record n {
  state = waiting_for_broker_response;
  preferred_version = v;
  confirm = true;
  reject = true;
  request = false;
  calls = commence_read 8 ∷ reset_read_buffer ∷ write_buffer sent ∷ n.calls;
}

abbrev asked_server : ℕ → Negotiator → Negotiator
asked_server v n = record (waiting_server n) {
  state = waiting_to_send_server_response;
  calls = requested v ∷ commence_read 8 ∷ n.calls;
}

abbrev answering_server : ℕ → ℕ → Buffer → Negotiator → Negotiator
answering_server v chosen answer n = record n {
  state = negotiated;
  preferred_version = chosen;
  confirm = true;
  reject = false;
  request = false;
  calls = confirmed ∷ write_buffer answer ∷ requested v ∷ commence_read 8 ∷ n.calls;
}

module _ (fresh : Buffer) where
  wait_runs :
      (n : Negotiator) → n.state ≡ initialized → wait fresh n.state n ≡ returns (waiting_server n)
  unfolding wait wait_while_initialized
  wait_runs n at = ap (λ s. wait fresh s n) at

  start_runs :
      (v : ℕ) (sent : Buffer) (n : Negotiator)
      → n.state ≡ initialized
      → encode_version v fresh ≡ returns sent
      → start fresh n.state v n ≡ returns (started_client v sent n)
  unfolding start start_while_initialized write_version
  start_runs v sent n at e = ap (λ s. start fresh s v n) at ∙ rw e refl

  request_runs :
      (v : ℕ) (sent b : Buffer) (n : Negotiator)
      → decode_version sent ≡ (v, b)
      → read_done fresh waiting_on_client_request sent 8 (waiting_server n)
        ≡ returns (asked_server v n)
  unfolding read_done read_done_while_waiting_on_client_request call_back
  request_runs v sent b n e = ap (λ w. returns (asked_server w.0 n)) e

  send_runs :
      (v chosen : ℕ) (answer : Buffer) (n : Negotiator)
      → encode_version chosen fresh ≡ returns answer
      → send fresh waiting_to_send_server_response chosen (asked_server v n)
        ≡ returns (answering_server v chosen answer n)
  unfolding send send_while_waiting_to_send_server_response write_version call_back
  send_runs v chosen answer n e = rw e refl

  abbrev pub Agrees : ℕ → ℕ → Negotiator → Type 0
  Agrees v chosen c =
      ((chosen ≡ v)
        × (c.state ≡ negotiated)
        × (before : List Call) × (c.calls ≡ confirmed ∷ before))
      ⊎ ((chosen ≢ v)
          × (c.state ≡ rejected)
          × (before : List Call) × (c.calls ≡ rejected_with chosen ∷ before))

  response_runs :
      (v chosen : ℕ) (sent answer b : Buffer) (n : Negotiator)
      → decode_version answer ≡ (chosen, b)
      → (c : Negotiator) × (read_done fresh waiting_for_broker_response answer 8
            (started_client v sent n)
          ≡ returns c)
        × Agrees v chosen c
  unfolding read_done read_done_while_waiting_for_broker_response call_back
  response_runs v chosen sent answer b n e =
      let n1 = started_client v sent n in
      let taken : read_done fresh waiting_for_broker_response answer 8 n1 ≡ (
          if chosen == v
          then returns (record n1 { state = negotiated; calls = confirmed ∷ n1.calls })
          else returns (record n1 { state = rejected; calls = rejected_with chosen ∷ n1.calls })) =
        ap
          (λ r.
            if r.0 == v
            then returns (record n1 { state = negotiated; calls = confirmed ∷ n1.calls })
            else returns (record n1 { state = rejected; calls = rejected_with r.0 ∷ n1.calls }))
          e in
      elim (Bool-cases (chosen == v)) [
        | inl same ↦ (
          record n1 { state = negotiated; calls = confirmed ∷ n1.calls },
          taken ∙ if_true _ same,
          inl (==→eq chosen v same, refl, n1.calls, refl),
        )
        | inr other ↦ (
          record n1 { state = rejected; calls = rejected_with chosen ∷ n1.calls },
          taken ∙ if_false _ other,
          inr (λ q. ground (arith, other, q), refl, n1.calls, refl),
        )
      ]

-- A client that prefers one version and a server that answers with the one it chooses, each in its
-- first state and with an empty buffer to write in, come to an end. The server has negotiated the
-- chosen version; the client has negotiated it too and is told so if it is the preferred one, and
-- has rejected it and is told which if it is not. The versions have 32 bits.
pub exchange_lem :
    (fresh : Buffer) (choose : ℕ → ℕ) (version : ℕ) (client server : Negotiator)
    → client.state ≡ initialized
    → server.state ≡ initialized
    → version < 2 ^ 32
    → choose version < 2 ^ 32
    → fresh.size ≡ 0
    → fresh.index ≡ 0
    → check_free_space fresh 8 ≡ true
    → (c : Negotiator) × (s : Negotiator) × (exchange fresh choose version client server
        ≡ returns (c, s))
      × (s.state ≡ negotiated)
      × (s.preferred_version ≡ choose version)
      × Agrees fresh version (choose version) c
unfolding exchange respond written_by asked_of
exchange_lem fresh choose v client server at_client at_server hv hc empty origin room =
    let (sent, written, _, read) = decode-encode_version v fresh hv empty origin room in
    let (answer, answered, _, known) =
      decode-encode_version (choose v) fresh hc empty origin room in
    let (c, response, agrees) =
      response_runs fresh v (choose v) sent answer (record answer { index = 8 }) client known in
    let s1 = waiting_server server in
    let c1 = started_client v sent client in
    let s2 = asked_server v server in
    let s3 = answering_server v (choose v) answer server in
    let fourth : Negotiator → Outcome (Negotiator × Negotiator) = λ s3.
      or_stops (written_by s3.calls) >>= λ answer.
      read_done fresh c1.state answer 8 c1 >>= λ c2. returns (c2, s3) in
    let third : Negotiator → Outcome (Negotiator × Negotiator) = λ s2.
      or_stops (asked_of s2.calls) >>= λ asked. send fresh s2.state (choose asked) s2 >>= fourth in
    (
      c,
      s3,
      ap (λ o. o >>= λ s1. start fresh client.state v client >>= respond fresh choose s1)
            (wait_runs fresh server at_server)
          ∙ bind_returns (respond fresh choose s1)
              (start_runs fresh v sent client at_client written)
          ∙ bind_returns third (request_runs fresh v sent (record sent { index = 8 }) server read)
          ∙ bind_returns fourth (send_runs fresh v (choose v) answer server answered)
          ∙ bind_returns (λ c2. returns (c2, s3)) response,
      refl,
      refl,
      agrees,
    )
