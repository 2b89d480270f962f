-- ===== src/Sockets/Invariant.antt =====
-- The rooms hold clients whose tenant owns the execution, whatever happens to the server.
use constructor.Prelude.{
  String, ◌≡◌, refl, sym, ◌∙◌, ap, Bool, true, false, not, Option, none, some, List, [], ◌∷◌, Dict,
  lookup, insert, erase, lookup-insert, lookup-erase, All, ◌==◌, eq_iff, Bool-cases, inl, inr,
  arith,
}
use constructor.Json.{Value, null, bool, num, float, str, arr, obj, is_true}
use constructor.Json.Compare.{value_eq}
use constructor.Outcome.{Outcome, return, raise, Outcome-cases, ◌>>=◌}
use constructor.Sockets.{
  token_of, session_of, Session, Member, Server, Outside, is_other, keep, leave_room, enter_room,
  owns, admit, connect, execution_id_of, join_execution, leave_execution, disconnect,
}

pub value_eq-str : (v : Value) (x : String) → value_eq v (str x) ≡ true → v ≡ str x
unfolding value_eq
value_eq-str null x h = cc
value_eq-str (bool b) x h = cc
value_eq-str (num n) x h = cc
value_eq-str (float f) x h = cc
value_eq-str (str s) x h = ap str ((eq_iff s x).0 h)
value_eq-str (arr xs) x h = cc
value_eq-str (obj d) x h = cc

str-value_eq : (x : String) (v : Value) → value_eq (str x) v ≡ true → v ≡ str x
unfolding value_eq
str-value_eq x (str s) h = ap str (sym ((eq_iff x s).0 h))
str-value_eq x null h = cc
str-value_eq x (bool b) h = cc
str-value_eq x (num n) h = cc
str-value_eq x (float f) h = cc
str-value_eq x (arr xs) h = cc
str-value_eq x (obj d) h = cc

pub All-keep :
    (P : Member → Type 0) (test : Member → Bool) (ms : List Member)
    → All P ms
    → All P (keep test ms)
unfolding keep
All-keep P test [] all = tt
All-keep P test (m ∷ ms) (p, ps) = elim (Bool-cases (test m)) [
  | inl kept ↦ rw (kept, keep) (p, All-keep P test ms ps)
  | inr gone ↦ rw (gone, keep) (All-keep P test ms ps)
]

-- The members that are kept pass the test.
keep-passes : (test : Member → Bool) (ms : List Member) → All (λ m. test m ≡ true) (keep test ms)
unfolding keep
keep-passes test [] = tt
keep-passes test (m ∷ ms) = elim (Bool-cases (test m)) [
  | inl kept ↦ rw (kept, keep) (kept, keep-passes test ms)
  | inr gone ↦ rw (gone, keep) (keep-passes test ms)
]

All-both :
    (P Q R : Member → Type 0)
    → ((m : Member) → P m → Q m → R m)
    → (ms : List Member) → All P ms
    → All Q ms
    → All R ms
All-both P Q R f [] ps qs = tt
All-both P Q R f (m ∷ ms) (p, ps) (q, qs) = (f m p q, All-both P Q R f ms ps qs)

module _ (out : Outside) where
  -- The tenant of the client's session owns the execution.
  pub record Owns (sessions : Dict Session) (sid : String) (execution_id : Value) : Type 0 where
    pub session : Session
    pub tenant : String
    pub connected : lookup sid sessions ≡ some session
    pub owner : out.tenant_of execution_id ≡ return (some tenant)
    pub same : session.tenant_id ≡ str tenant

  abbrev pub IsIsolated : Server → Type 0
  IsIsolated s = All (λ m. Owns s.sessions m.sid m.room) s.members

  owns-Owns :
      (s : Server) (sid : String) (id : Value) (tenant : Option String)
      → out.tenant_of id ≡ return tenant
      → owns out tenant (lookup sid s.sessions) ≡ true
      → Owns s.sessions sid id
  unfolding owns
  owns-Owns s sid id none owner h = cc
  owns-Owns s sid id (some tenant) owner h = go (lookup sid s.sessions) refl h
    where
      go :
          (o : Option Session)
          → lookup sid s.sessions ≡ o
          → value_eq (str tenant) (elim o as (λ _. Value) [ none ↦ null | some x ↦ x.tenant_id ])
            ≡ true
          → Owns s.sessions sid id
      go none at_sid h = cc (str-value_eq tenant null h)
      go (some session) at_sid h = record {
        session = session;
        tenant = tenant;
        connected = at_sid;
        owner = owner;
        same = str-value_eq tenant session.tenant_id h;
      }

  pub leave-IsIsolated :
      (sid : String) (id : Value) (s : Server)
      → IsIsolated s
      → All (λ m. Owns s.sessions m.sid m.room) (leave_room sid id s.members)
  unfolding leave_room
  leave-IsIsolated sid id s h = All-keep _ (is_other sid id) s.members h

  pub admit-IsIsolated :
      (sid : String) (id : Value) (tenant : Option String) (s : Server)
      → out.tenant_of id ≡ return tenant
      → IsIsolated s
      → IsIsolated (admit out sid id tenant s)
  unfolding admit
  admit-IsIsolated sid id tenant s owner h =
      elim (Bool-cases (owns out tenant (lookup sid s.sessions))) [
        | inl own ↦
            rw (own, admit)
              (unfold enter_room in
                (owns-Owns s sid id tenant owner own, leave-IsIsolated sid id s h))
        | inr other ↦ rw (other, admit) h
      ]

  pub join-IsIsolated :
      (sid : String) (request : Value) (s : Server)
      → IsIsolated s
      → IsIsolated (join_execution out sid request s)
  unfolding join_execution
  join-IsIsolated sid request s h =
      let id = execution_id_of out request in
      elim (Bool-cases (is_true id)) [
        | inr empty ↦ rw (empty, join_execution) h
        | inl given ↦ elim (Outcome-cases (out.tenant_of id)) [
          | inl (tenant, owner) ↦
              rw (given, join_execution) (rw owner (admit-IsIsolated sid id tenant s owner h))
          | inr (e, failed) ↦ rw (given, join_execution) (rw failed h)
        ]
      ]

  pub leave_execution-IsIsolated :
      (sid : String) (request : Value) (s : Server)
      → IsIsolated s
      → IsIsolated (leave_execution out sid request s)
  unfolding leave_execution
  leave_execution-IsIsolated sid request s h =
      elim (Bool-cases (is_true (execution_id_of out request))) [
        | inl given ↦
            rw (given, leave_execution) (leave-IsIsolated sid (execution_id_of out request) s h)
        | inr empty ↦ rw (empty, leave_execution) h
      ]

  -- Another client's session is kept.
  Owns-sessions :
      (sessions sessions' : Dict Session) (sid : String) (id : Value)
      → lookup sid sessions' ≡ lookup sid sessions
      → Owns sessions sid id
      → Owns sessions' sid id
  Owns-sessions sessions sessions' sid id same o = record {
    session = o.session;
    tenant = o.tenant;
    connected = same ∙ o.connected;
    owner = o.owner;
    same = o.same;
  }

  erase-other :
      (sid other : String) (sessions : Dict Session)
      → not (other == sid) ≡ true
      → lookup other (erase sid sessions) ≡ lookup other sessions
  erase-other sid other sessions h =
      ground (arith, lookup-erase sid other sessions, eq_iff sid other, eq_iff other sid, h)

  insert-other :
      (sid other : String) (session : Session) (sessions : Dict Session)
      → (other == sid) ≡ false
      → lookup other (insert sid session sessions) ≡ lookup other sessions
  insert-other sid other session sessions h =
      ground
        (arith, lookup-insert sid other session sessions, eq_iff sid other, eq_iff other sid, h)

  pub disconnect-IsIsolated :
      (sid : String) (s : Server) → IsIsolated s → IsIsolated (disconnect out sid s)
  unfolding disconnect
  disconnect-IsIsolated sid s h =
      All-both _ _ _
        (λ m o other.
          Owns-sessions s.sessions (erase sid s.sessions) m.sid m.room
            (erase-other sid m.sid s.sessions other) o)
        (keep (λ m. not (m.sid == sid)) s.members)
        (All-keep _ (λ m. not (m.sid == sid)) s.members h)
        (keep-passes (λ m. not (m.sid == sid)) s.members)

  pub connect-IsIsolated :
      (sid : String) (auth : Value) (s : Server)
      → All (λ m. (m.sid == sid) ≡ false) s.members
      → IsIsolated s
      → IsIsolated (connect out sid auth s).1
  unfolding connect
  connect-IsIsolated sid auth s fresh h =
      go (token_of out auth >>= λ token. out.verify_token token >>= session_of out)
    where
      go :
          (o : Outcome Session)
          → IsIsolated
              (elim o as (λ _. Outcome (Unit {0}) × Server) [
                | raise e ↦ (raise e, s)
                | return session ↦
                    (return tt, record s { sessions = insert sid session s.sessions })
              ]).1
      go (raise e) = h
      go (return session) =
          All-both _ _ _
            (λ m other o.
              Owns-sessions s.sessions (insert sid session s.sessions) m.sid m.room
                (insert-other sid m.sid session s.sessions other) o)
            s.members fresh h
