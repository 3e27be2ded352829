-- ===== src/Connection/Writer/Requests.antt =====
-- Each request of a client, and runs of requests.
use mathlib.Core.Path.{subst}
use libamqp.Prelude.{
  ℕ, ◌≡◌, ◌⊎◌, inl, inr, refl, sym, ap, ◌∙◌, true, false, none, some, List, [], ◌∷◌, ◌++◌,
  Bool-cases,
}
use mathlib.Core.List.{append_assoc, append-nil}
use libamqp.Prelude.Outcome.{Outcome, returns, stops, ◌>>=◌}
use libamqp.Connection.Writer.{
  Write, Writer, Request, enable, continue_write, stop, abort, write, step,
}
use libamqp.Connection.Writer.Invariant.{IsWriter, is_served, unserved_stops}
use libamqp.Connection.Writer.{run}
use libamqp.Connection.Writer.Cleanup.{Serves}
-- The bytes that a request hands over.
use libamqp.Connection.Writer.Served.{
  enable_lem, write_null_lem, write_lem, continue_lem, stop_lem, abort_lem,
}
use libamqp.Connection.Writer.Controlled.{given_by}

more :
    (o : Outcome (List Write × Writer)) (given : List ℕ) → Serves o given → Serves o (given ++ [])
more o given served = subst (λ l. Serves o l) (sym (append-nil given)) served

served_lem :
    (q : Request) (socket : List Write) (w : Writer) (given : List ℕ)
    → IsWriter w given
    → is_served w.state q ≡ true
    → Serves (step q (socket, w)) (given ++ given_by q)
unfolding given_by
served_lem enable socket w given fine e =
    more (step enable (socket, w)) given (enable_lem socket w given fine e)
served_lem (write none) socket w given fine e =
    more (step (write none) (socket, w)) given (write_null_lem socket w given fine e)
served_lem (write (some bytes)) socket w given fine e = write_lem socket w given bytes fine e
served_lem continue_write socket w given fine e =
    more (step continue_write (socket, w)) given (continue_lem socket w given fine e)
served_lem stop socket w given fine e =
    more (step stop (socket, w)) given (stop_lem socket w given fine)
served_lem abort socket w given fine e =
    more (step abort (socket, w)) given (abort_lem socket w given fine)

-- All bytes that requests hand over.
unfoldable pub all_given : List Request → List ℕ
all_given [] = []
all_given (q ∷ qs) = given_by q ++ all_given qs

-- Requests of which one is not served, in the state that the others before it lead to: the program
-- ends there.
pub record IsRefused (qs : List Request) (socket : List Write) (w : Writer) : Type 0 where
  pub before : List Request
  pub refused : Request
  pub behind : List Request
  pub parts : before ++ (refused ∷ behind) ≡ qs
  pub left : List Write
  pub reached : Writer
  pub runs : run before (socket, w) ≡ returns (left, reached)
  pub unserved : is_served reached.state refused ≡ false
  pub ends : run qs (socket, w) ≡ stops

-- From a writer that is fine any requests are served, or end the program at the first that its state
-- does not serve.
pub run_lem :
    (qs : List Request) (socket : List Write) (w : Writer) (given : List ℕ)
    → IsWriter w given
    → IsRefused qs socket w ⊎ Serves (run qs (socket, w)) (given ++ all_given qs)
unfolding run all_given
run_lem [] socket w given fine = inr (more (returns (socket, w)) given (socket, w, refl, fine))
run_lem (q ∷ qs) socket w given fine = elim (Bool-cases (is_served w.state q)) [
  | inr e ↦ inl (record {
    before = [];
    refused = q;
    behind = qs;
    parts = refl;
    left = socket;
    reached = w;
    runs = refl;
    unserved = e;
    ends = ap (λ o. o >>= run qs) (unserved_stops q socket w e);
  })
  | inl e ↦
      let (later, w', runs, fine') = served_lem q socket w given fine e in
      let whole = append_assoc given (given_by q) (all_given qs) in
      elim (run_lem qs later w' (given ++ given_by q) fine') [
        | inl r ↦ inl (record {
          before = q ∷ r.before;
          refused = r.refused;
          behind = r.behind;
          parts = ap (λ l. q ∷ l) r.parts;
          left = r.left;
          reached = r.reached;
          runs = ap (λ o. o >>= run r.before) runs ∙ r.runs;
          unserved = r.unserved;
          ends = ap (λ o. o >>= run qs) runs ∙ r.ends;
        })
        | inr (socket', w'', runs', fine'') ↦ inr (
          socket',
          w'',
          ap (λ o. o >>= run qs) runs ∙ runs',
          subst (λ l. IsWriter w'' l) whole fine'',
        )
      ]
]
