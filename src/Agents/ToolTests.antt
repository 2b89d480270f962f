-- ===== src/Agents/ToolTests.antt =====
-- The theorems about the guards of the tools at a URL and at a query.
use constructor.Prelude.{
  ◌≡◌, refl, String, none, some, [], ◌∷◌, ◌==◌, if◌then◌else◌, inl, inr, arith,
}
use constructor.Json.{Fields, str, nil, end, field, get}
use constructor.Outcome.{return, raise, raised}
use constructor.Agents.HttpGeneric as Http
use constructor.Agents.HttpGeneric.{Internet, ipv4, dotted}
use constructor.Agents.HttpGeneric.Private as Private
use constructor.Agents.SqlQuery as Sql

-- The host is the URL; two names resolve, to "127.0.0.1" and to its IPv6 form.
abbrev internet : Internet
internet = record {
  ip_address = λ text.
      if text == "127.0.0.1"
      then some (ipv4 (dotted 127 0 0 1))
      else if text == "::ffff:127.0.0.1"
      then some (Private.mapped (dotted 127 0 0 1))
      else none;
  gethostbyname = λ moment name. if name == "local" then some "127.0.0.1" else none;
  hostname = λ url. elim url [ str text ↦ return (some text) | _ ↦ return none ];
  request = λ moment method url headers body.
      return (record { status_code = 200; body_json = none; body_text = "ok"; headers = end });
}

abbrev inputs_of : String → Fields
inputs_of url = field "url" (str url) (field "method" (str "GET") end)

execute-ipv4_example :
    (Private.InPrivateRange (dotted 127 0 0 1)
      → Http.execute internet [] (inputs_of "local") end ≡ Private.refusal internet [] "local")
    × (¬ Private.InPrivateRange (dotted 127 0 0 1)
        → Http.execute internet [] (inputs_of "local") end
          ≡ Http.send internet [] (str "local") (inputs_of "local"))
unfolding get
execute-ipv4_example =
    Private.execute-ipv4 internet [] (inputs_of "local") end (str "local") (some "local")
      (dotted 127 0 0 1) refl refl (inr ("127.0.0.1", refl, refl, refl))

execute-mapped_example :
    Http.execute internet [] (inputs_of "::ffff:127.0.0.1") end
    ≡ Http.send internet [] (str "::ffff:127.0.0.1") (inputs_of "::ffff:127.0.0.1")
unfolding get
execute-mapped_example =
    Private.execute-mapped internet [] (inputs_of "::ffff:127.0.0.1") end (str "::ffff:127.0.0.1")
      (some "::ffff:127.0.0.1") (dotted 127 0 0 1) refl refl (inl refl) (omega arith)

abbrev database : Sql.Database
database = record {
  sql_parse = λ query. record { type = some "SELECT"; text = query } ∷ [];
  has_word = λ words text. text == "SELECT 1; DROP TABLE t";
  to_text = λ v. elim v [ str t ↦ t | _ ↦ "" ];
  statement = λ moment query params.
      if query == Sql.set_tenant then raise (raised "syntax error") else return nil;
}

abbrev query_inputs : Fields
query_inputs = field "query" (str "SELECT 1") end
