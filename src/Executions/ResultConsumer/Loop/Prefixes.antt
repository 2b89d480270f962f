-- ===== src/Executions/ResultConsumer/Loop/Prefixes.antt =====
-- What the consumer handles, however Redis answers it.
use constructor.Prelude.{
  ℕ, suc, ◌+◌, ◌*◌, ◌≤◌, String, Option, none, some, List, [], ◌∷◌, ◌++◌, length, ◌≡◌, refl, sym,
  ◌∙◌, ap, subst, ◌⊎◌, inl, inr, arith,
}
use constructor.Executions.Events.{AgentResult}
use constructor.Executions.Dispatcher.{Dispatcher}
use constructor.Executions.ResultConsumer.{Entry, handle_if_read, read_result}
use constructor.Executions.ResultConsumer.Acks.{readable, handle_results, handle_results-keep_some}
use constructor.Executions.ResultConsumer.Loop.{
  Reading, entries, redis_error, cancelled, Ack, taken, refused, ended, Left, went_on, failed,
  stopped, left_by, Group, xack, retry, process_read, process_batch, consume,
}

module _ (parse : String → Option AgentResult) (acks : ℕ → Ack) where
  -- How a reading is left after the acknowledgements from one number to another: all of it is handled;
  -- or Redis refused the last acknowledgement; or the end of the service reached the last one.
  abbrev pub IsLeft : Left → List Entry → ℕ → Type 0
  IsLeft went_on rest to = rest ≡ []
  IsLeft failed rest to = (n : ℕ) × (to ≡ suc n) × (acks n ≡ refused)
  IsLeft stopped rest to = (n : ℕ) × (to ≡ suc n) × (acks n ≡ ended)

  -- One or two acknowledgements for each entry.
  abbrev pub Tries : List Entry → ℕ → ℕ → Type 0
  Tries first from to = (from + length first ≤ to) × (to ≤ from + 2 * length first)

  -- The entries that are handled, from a number of acknowledgements on: they begin each reading, in the
  -- order of the stream, and the readings after a refusal follow; nothing follows the end of the
  -- service.
  pub data AreHandled : ℕ → List Reading → List Entry → Type 0 where
    no_reading : (from : ℕ) → AreHandled from [] []
    at_end : (from : ℕ) (rs : List Reading) → AreHandled from (cancelled ∷ rs) []
    after_error :
        (from : ℕ) (rs : List Reading) (es : List Entry)
        → AreHandled from rs es
        → AreHandled from (redis_error ∷ rs) es
    after_entries :
        (from to : ℕ) (first rest : List Entry) (rs : List Reading) (es : List Entry)
        → Tries first from to
        → IsLeft went_on rest to ⊎ IsLeft failed rest to
        → AreHandled to rs es
        → AreHandled from (entries (first ++ rest) ∷ rs) (first ++ es)
    ended_in_entries :
        (from to : ℕ) (first rest : List Entry) (rs : List Reading)
        → Tries first from to
        → IsLeft stopped rest to
        → AreHandled from (entries (first ++ rest) ∷ rs) first

  -- What the acknowledgements of one entry do.
  pub record IsRead (e : Entry) (o : Option AgentResult) (g : Group) (out : Left × Group)
      : Type 0 where
    pub dispatcher : out.1.consumer.dispatcher ≡ handle_if_read o g.consumer.dispatcher
    pub tries : (g.tried + 1 ≤ out.1.tried) × (out.1.tried ≤ g.tried + 2)
    pub last : (n : ℕ) × (out.1.tried ≡ suc n) × (left_by (acks n) ≡ out.0)

  xack-IsRead : (e : Entry) (g : Group) → IsRead e none g (xack parse acks e g)
  unfolding xack handle_if_read
  xack-IsRead e g = record {
    dispatcher = refl;
    tries = (omega arith, omega arith);
    last = (g.tried, refl, refl);
  }

  retry-IsRead :
      (e : Entry) (r : AgentResult) (g : Group) (a : Ack)
      → acks g.tried ≡ a
      → IsRead e (some r) g (process_read parse acks e (some r) g)
  unfolding process_read retry xack handle_if_read
  retry-IsRead e r g taken known =
      rw (known, retry)
        (record {
          dispatcher = refl;
          tries = (omega arith, omega arith);
          last = (g.tried, refl, ap left_by known);
        })
  retry-IsRead e r g refused known =
      rw (known, retry)
        (record {
          dispatcher = refl;
          tries = (omega arith, omega arith);
          last = (suc g.tried, refl, refl);
        })
  retry-IsRead e r g ended known =
      rw (known, retry)
        (record {
          dispatcher = refl;
          tries = (omega arith, omega arith);
          last = (g.tried, refl, ap left_by known);
        })

  handle_results-append :
      (first es : List Entry) (d : Dispatcher)
      → handle_results (readable parse (first ++ es)) d
        ≡ handle_results (readable parse es) (handle_results (readable parse first) d)
  handle_results-append [] es d = refl
  handle_results-append (e ∷ first) es d =
      handle_results-keep_some (read_result parse e) (readable parse (first ++ es)) d
      ∙ (handle_results-append first es (handle_if_read (read_result parse e) d)
          ∙ ap (handle_results (readable parse es))
              (sym (handle_results-keep_some (read_result parse e) (readable parse first) d)))

  process_read-IsRead :
      (e : Entry) (o : Option AgentResult) (g : Group)
      → IsRead e o g (process_read parse acks e o g)
  unfolding process_read
  process_read-IsRead e none g = xack-IsRead e g
  process_read-IsRead e (some r) g = retry-IsRead e r g (acks g.tried) refl

  -- A reading: how far it was handled, and what that did to the futures.
  record ReadsOn (es : List Entry) (g : Group) (out : Left × Group) : Type 0 where
    first : List Entry
    rest : List Entry
    parts : first ++ rest ≡ es
    tries : Tries first g.tried out.1.tried
    left : IsLeft out.0 rest out.1.tried
    dispatcher :
        out.1.consumer.dispatcher ≡ handle_results (readable parse first) g.consumer.dispatcher

  left_by-refused : (a : Ack) → left_by a ≡ failed → a ≡ refused
  left_by-refused taken h = cc
  left_by-refused refused h = refl
  left_by-refused ended h = cc

  left_by_ended : (a : Ack) → left_by a ≡ stopped → a ≡ ended
  left_by_ended taken h = cc
  left_by_ended refused h = cc
  left_by_ended ended h = refl

  one_entry :
      (e : Entry) (g g' : Group)
      → g'.consumer.dispatcher ≡ handle_if_read (read_result parse e) g.consumer.dispatcher
      → g'.consumer.dispatcher ≡ handle_results (readable parse (e ∷ [])) g.consumer.dispatcher
  one_entry e g g' same =
      same ∙ sym (handle_results-keep_some (read_result parse e) [] g.consumer.dispatcher)

  process_batch-ReadsOn :
      (es : List Entry) (g : Group) → ReadsOn es g (process_batch parse acks es g)
  unfolding process_batch
  process_batch-ReadsOn [] g = record {
    first = [];
    rest = [];
    parts = refl;
    tries = (omega arith, omega arith);
    left = refl;
    dispatcher = refl;
  }
  process_batch-ReadsOn (e ∷ es) g =
      go (process_read parse acks e (read_result parse e) g)
        (process_read-IsRead e (read_result parse e) g) (λ g'. process_batch-ReadsOn es g')
    where
      go :
          (out : Left × Group)
          → IsRead e (read_result parse e) g out
          → ((g' : Group) → ReadsOn es g' (process_batch parse acks es g'))
          → ReadsOn (e ∷ es) g (elim out.0 as (λ _. Left × Group) [
            | went_on ↦ process_batch parse acks es out.1
            | failed ↦ (failed, out.1)
            | stopped ↦ (stopped, out.1)
          ])
      go (went_on, g') read later =
          let b = later g' in
          record {
            first = e ∷ b.first;
            rest = b.rest;
            parts = ap (λ l. e ∷ l) b.parts;
            tries = (omega (arith, read.tries, b.tries), omega (arith, read.tries, b.tries));
            left = b.left;
            dispatcher =
                b.dispatcher
                ∙ (ap (handle_results (readable parse b.first)) read.dispatcher
                    ∙ sym (
                        handle_results-keep_some (read_result parse e) (readable parse b.first)
                          g.consumer.dispatcher));
          }
      go (failed, g') read later =
          let (n, tried, why) = read.last in
          record {
            first = e ∷ [];
            rest = es;
            parts = refl;
            tries = (omega (arith, read.tries), omega (arith, read.tries));
            left = (n, tried, left_by-refused (acks n) why);
            dispatcher = one_entry e g g' read.dispatcher;
          }
      go (stopped, g') read later =
          let (n, tried, why) = read.last in
          record {
            first = e ∷ [];
            rest = es;
            parts = refl;
            tries = (omega (arith, read.tries), omega (arith, read.tries));
            left = (n, tried, left_by_ended (acks n) why);
            dispatcher = one_entry e g g' read.dispatcher;
          }

  -- The entries that some readings have handled.
  abbrev pub Handles : Group → List Reading → Group → Type 0
  Handles g rs g' =
      (es : List Entry) × AreHandled g.tried rs es
      × (g'.consumer.dispatcher ≡ handle_results (readable parse es) g.consumer.dispatcher)

  goes_on :
      (all : List Entry) (rs : List Reading) (g g' : Group) (first rest : List Entry)
      → first ++ rest ≡ all
      → Tries first g.tried g'.tried
      → IsLeft went_on rest g'.tried ⊎ IsLeft failed rest g'.tried
      → g'.consumer.dispatcher ≡ handle_results (readable parse first) g.consumer.dispatcher
      → Handles g' rs (consume parse acks rs g')
      → Handles g (entries all ∷ rs) (consume parse acks rs g')
  goes_on all rs g g' first rest parts tries left settled (es, handled, same) = (
    first ++ es,
    subst (λ all. AreHandled g.tried (entries all ∷ rs) (first ++ es)) parts
        (after_entries g.tried g'.tried first rest rs es tries left handled),
    same
        ∙ (ap (handle_results (readable parse es)) settled
            ∙ sym (handle_results-append first es g.consumer.dispatcher)),
  )

  process_batch-Handles :
      (all : List Entry) (rs : List Reading) (g : Group) (out : Left × Group)
      → ReadsOn all g out
      → Handles out.1 rs (consume parse acks rs out.1)
      → Handles g (entries all ∷ rs) (elim out.0 as (λ _. Group) [
        | went_on ↦ consume parse acks rs out.1
        | failed ↦ consume parse acks rs out.1
        | stopped ↦ out.1
      ])
  process_batch-Handles all rs g (went_on, g') b (es, handled, same) =
      goes_on all rs g g' b.first b.rest b.parts b.tries (inl b.left) b.dispatcher
        (es, handled, same)
  process_batch-Handles all rs g (failed, g') b (es, handled, same) =
      goes_on all rs g g' b.first b.rest b.parts b.tries (inr b.left) b.dispatcher
        (es, handled, same)
  process_batch-Handles all rs g (stopped, g') b later = (
    b.first,
    subst (λ all. AreHandled g.tried (entries all ∷ rs) b.first) b.parts
        (ended_in_entries g.tried g'.tried b.first b.rest rs b.tries b.left),
    b.dispatcher,
  )

  -- However Redis answers the readings and the acknowledgements, and whenever the service ends, the
  -- futures are settled as by the readable results of some entries, in order: those that begin each
  -- reading. The rest of a reading, which is never read again, is left out only if Redis refused the
  -- last acknowledgement that was tried for its beginning, one or two for each entry, and then the
  -- next reading is handled from its start; or if the end of the service reached that
  -- acknowledgement, and then nothing follows.
  pub consume-AreHandled : (rs : List Reading) (g : Group) → Handles g rs (consume parse acks rs g)
  unfolding consume
  consume-AreHandled [] g = ([], no_reading g.tried, refl)
  consume-AreHandled (cancelled ∷ rs) g = ([], at_end g.tried rs, refl)
  consume-AreHandled (redis_error ∷ rs) g =
      let (es, handled, same) = consume-AreHandled rs g in
      (es, after_error g.tried rs es handled, same)
  consume-AreHandled (entries all ∷ rs) g =
      process_batch-Handles all rs g (process_batch parse acks all g) (process_batch-ReadsOn all g)
        (consume-AreHandled rs (process_batch parse acks all g).1)
