-- ===== src/Connection/Negotiation.antt =====
-- The negotiation of a version, Transport/Connection/ConnectionNegotiation.c, on the client's side and on
-- the server's. What it calls is noted, the last call first.
pub mod Agreement
mod Tests
use libamqp.Prelude.{
  ℕ, zero, suc, ◌+◌, ◌-◌, ◌*◌, ◌/◌, ◌%◌, ◌^◌, ◌≤◌, ◌<◌, ◌≡◌, ◌≢◌, ◌↔◌, ◌⊎◌, inl, inr, refl, sym, ap,
  ◌∙◌, Bool, true, false, ◌&&◌, ◌||◌, not, Option, none, some, List, [], ◌∷◌, ◌++◌, map, arith, ltb,
  leb, ◌==◌, if◌then◌else◌, Bool-cases, Option-cases, if_true, if_false, ltb→lt, lt→ltb, le→ltb,
  leb→le, le→leb, gt→leb, ==→eq, length, get_elem?, get_elem?-some, get_elem?-lt, length-append,
  update, All, take, drop,
}
use libamqp.Prelude.Outcome.{Outcome, returns, stops, undefined, ◌>>=◌, assert}
use libamqp.Buffer.{Buffer}
use libamqp.Connection.Negotiator.{encode_version, decode_version}

pub data NegotiatorState : Type 0 where
  initialized negotiated failed rejected : NegotiatorState
  waiting_for_broker_response waiting_on_client_request : NegotiatorState
  waiting_to_send_server_response : NegotiatorState

-- The calls of the writer, the reader, the callbacks of the handshake, and the connection.
pub data Call : Type 0 where
  write_buffer : Buffer → Call
  reset_read_buffer shutdown confirmed : Call
  commence_read rejected_with requested : ℕ → Call

-- The callbacks are there or null.
pub record Negotiator : Type 0 where
  pub state : NegotiatorState
  pub preferred_version : ℕ
  pub confirm : Bool
  pub reject : Bool
  pub request : Bool
  pub calls : List Call

abbrev pub noted : Call → Negotiator → Negotiator
noted c n = record n { calls = c ∷ n.calls }

abbrev pub transition_to : NegotiatorState → Negotiator → Negotiator
transition_to s n = record n { state = s }

-- A callback that is null cannot be called.
unfoldable pub call_back : Bool → Call → Negotiator → Outcome Negotiator
call_back true c n = returns (noted c n)
call_back false c n = undefined

abbrev pub frame_header_size : ℕ
frame_header_size = 8

-- The buffer that is allocated for a version is a parameter.
module _ (fresh : Buffer) where
  unfoldable pub write_version : ℕ → Negotiator → Outcome Negotiator
  write_version version n = encode_version version fresh >>= λ b. returns (noted (write_buffer b) n)

  unfoldable pub start_while_initialized : ℕ → Negotiator → Outcome Negotiator
  start_while_initialized version n =
      write_version version
        (record n { preferred_version = version; confirm = true; reject = true; request = false })
      >>= λ n'. returns (
          noted (commence_read frame_header_size)
            (noted reset_read_buffer (transition_to waiting_for_broker_response n')))

  unfoldable pub wait_while_initialized : Negotiator → Outcome Negotiator
  wait_while_initialized n = returns (
      noted (commence_read frame_header_size) (record (transition_to waiting_on_client_request n) {
        preferred_version = 0;
        confirm = false;
        reject = false;
        request = true;
      }))

  -- The end of the input comes to no bytes.
  unfoldable pub disconnected : Negotiator → Outcome Negotiator
  disconnected n = returns (noted shutdown (transition_to failed n))

  unfoldable pub read_done_while_waiting_for_broker_response :
      Buffer → ℕ → Negotiator → Outcome Negotiator
  read_done_while_waiting_for_broker_response b zero n = disconnected n
  read_done_while_waiting_for_broker_response b (suc _) n =
      let broker_version = (decode_version b).0 in
      if broker_version == n.preferred_version
      then call_back n.confirm confirmed (transition_to negotiated n)
      else call_back n.reject (rejected_with broker_version) (transition_to rejected n)

  unfoldable pub read_done_while_waiting_on_client_request :
      Buffer → ℕ → Negotiator → Outcome Negotiator
  read_done_while_waiting_on_client_request b zero n = disconnected n
  read_done_while_waiting_on_client_request b (suc _) n =
      call_back n.request (requested (decode_version b).0)
        (transition_to waiting_to_send_server_response n)

  unfoldable pub send_while_waiting_to_send_server_response : ℕ → Negotiator → Outcome Negotiator
  send_while_waiting_to_send_server_response version n =
      write_version version
        (record n { preferred_version = version; confirm = true; reject = false; request = false })
      >>= λ n'. let n'' = transition_to negotiated n' in call_back n''.confirm confirmed n''

  -- The actions of the states; the last clause of each is the default, which ends the program.
  unfoldable pub start : NegotiatorState → ℕ → Negotiator → Outcome Negotiator
  start initialized version n = start_while_initialized version n
  start _ version n = stops

  unfoldable pub wait : NegotiatorState → Negotiator → Outcome Negotiator
  wait initialized n = wait_while_initialized n
  wait _ n = stops

  unfoldable pub send : NegotiatorState → ℕ → Negotiator → Outcome Negotiator
  send waiting_to_send_server_response version n =
      send_while_waiting_to_send_server_response version n
  send _ version n = stops

  unfoldable pub read_done : NegotiatorState → Buffer → ℕ → Negotiator → Outcome Negotiator
  read_done waiting_for_broker_response b amount n =
      read_done_while_waiting_for_broker_response b amount n
  read_done waiting_on_client_request b amount n =
      read_done_while_waiting_on_client_request b amount n
  read_done _ b amount n = stops

  unfoldable pub reset : NegotiatorState → Negotiator → Outcome Negotiator
  reset initialized n = returns n
  reset negotiated n = returns (transition_to initialized n)
  reset _ n = stops
