-- ===== src/Connection/Negotiation/Tests.antt =====
-- A run of two negotiators, and an instance of the theorem on them.
use libamqp.Prelude.{ℕ, ◌≡◌, refl, false, [], arith}
use libamqp.Prelude.Outcome.{Outcome, returns, ◌>>=◌}
use libamqp.Buffer.{
  Buffer, check_free_space, unchecked_putc, unchecked_putc_at, getc, unchecked_getc,
  unchecked_getc_at,
}
use libamqp.Connection.Negotiator.{
  encode_version, decode_version, magic, next_byte, version_bytes, version_protocol_id,
  version_major, version_minor, version_release,
}
use libamqp.Connection.Negotiation.{
  Negotiator, NegotiatorState, call_back, write_version, start_while_initialized,
  wait_while_initialized, read_done_while_waiting_for_broker_response,
  read_done_while_waiting_on_client_request, send_while_waiting_to_send_server_response, start,
  wait, send, read_done,
}
use libamqp.Connection.Negotiation.Agreement.{
  exchange, respond, exchange_lem, Agrees, written_by, asked_of,
}

abbrev negotiator : Negotiator
negotiator = record {
  state = NegotiatorState.initialized;
  preferred_version = 0;
  confirm = false;
  reject = false;
  request = false;
  calls = [];
}

abbrev fresh : Buffer
fresh = record { capacity = 1024; fragments = λ _ _. 0; index = 0; size = 0; reference_count = 1 }

-- Protocol 0, version 1.0.0, which the server supports and no other.
abbrev supported : ℕ
supported = 65536

exchange_lem_example :
    (c : Negotiator) × (s : Negotiator) × (exchange fresh
        (λ _. supported)
        65537
        negotiator
        negotiator
      ≡ returns (c, s))
    × (s.state ≡ NegotiatorState.negotiated)
    × (s.preferred_version ≡ supported)
    × Agrees fresh 65537 supported c
unfolding check_free_space
exchange_lem_example =
    exchange_lem fresh (λ _. supported) 65537 negotiator negotiator refl refl (omega arith)
      (omega arith) refl refl refl

abbrev states_of : Outcome (Negotiator × Negotiator) → Outcome (NegotiatorState × NegotiatorState)
states_of o = o >>= λ (c, s). returns (c.state, s.state)

rejecting :
    states_of (exchange fresh (λ _. supported) 65537 negotiator negotiator)
    ≡ returns (NegotiatorState.rejected, NegotiatorState.negotiated)
unfolding exchange respond written_by asked_of start wait send read_done start_while_initialized
    wait_while_initialized read_done_while_waiting_for_broker_response
    read_done_while_waiting_on_client_request send_while_waiting_to_send_server_response
    write_version call_back encode_version decode_version check_free_space unchecked_putc
    unchecked_putc_at magic version_bytes next_byte getc unchecked_getc unchecked_getc_at
    version_protocol_id version_major version_minor version_release
rejecting = refl

agreeing :
    states_of (exchange fresh (λ _. supported) supported negotiator negotiator)
    ≡ returns (NegotiatorState.negotiated, NegotiatorState.negotiated)
unfolding exchange respond written_by asked_of start wait send read_done start_while_initialized
    wait_while_initialized read_done_while_waiting_for_broker_response
    read_done_while_waiting_on_client_request send_while_waiting_to_send_server_response
    write_version call_back encode_version decode_version check_free_space unchecked_putc
    unchecked_putc_at magic version_bytes next_byte getc unchecked_getc unchecked_getc_at
    version_protocol_id version_major version_minor version_release
agreeing = refl
