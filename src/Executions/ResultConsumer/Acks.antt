-- ===== src/Executions/ResultConsumer/Acks.antt =====
-- The consumer acknowledges every entry once, and acts on the results in the order of the stream.
use mathlib.Core.List.{append_assoc, append-nil, map}
use constructor.Prelude.{String, ◌≡◌, refl, sym, ◌∙◌, Option, none, some, List, [], ◌∷◌, ◌++◌}
use constructor.Executions.Events.{AgentResult}
use constructor.Executions.Dispatcher.{Dispatcher}
use constructor.Executions.ResultConsumer.{
  Entry, Consumer, handle_result, handle_if_read, read_result, process_entry, process_entries,
}

abbrev pub keep_some : Option AgentResult → List AgentResult → List AgentResult
keep_some none rs = rs
keep_some (some r) rs = r ∷ rs

-- The results that the entries hold, without those that cannot be read.
abbrev pub readable : (String → Option AgentResult) → List Entry → List AgentResult
readable parse [] = []
readable parse (e ∷ es) = keep_some (read_result parse e) (readable parse es)

abbrev pub handle_results : List AgentResult → Dispatcher → Dispatcher
handle_results [] d = d
handle_results (r ∷ rs) d = handle_results rs (handle_result r d)

pub handle_results-keep_some :
    (o : Option AgentResult) (rs : List AgentResult) (d : Dispatcher)
    → handle_results (keep_some o rs) d ≡ handle_results rs (handle_if_read o d)
unfolding handle_if_read
handle_results-keep_some none rs d = refl
handle_results-keep_some (some r) rs d = refl

-- Whatever a batch of entries holds, the consumer acknowledges each of them once and in order, and
-- leaves the dispatcher that handling just the readable results, in order, leaves.
pub process_entries-effect :
    (parse : String → Option AgentResult) (es : List Entry) (c : Consumer)
    → ((process_entries parse es c).dispatcher ≡ handle_results (readable parse es) c.dispatcher)
      × ((process_entries parse es c).acked ≡ c.acked ++ map (λ e. e.entry_id) es)
unfolding process_entries
process_entries-effect parse [] c = (refl, sym (append-nil c.acked))
process_entries-effect parse (e ∷ es) c =
    let (same, acks) = process_entries-effect parse es (process_entry parse e c) in
    (
      same ∙ sym (handle_results-keep_some (read_result parse e) (readable parse es) c.dispatcher),
      acks ∙ append_assoc c.acked (e.entry_id ∷ []) (map (λ x. x.entry_id) es),
    )
