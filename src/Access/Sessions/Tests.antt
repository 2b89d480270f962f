-- ===== src/Access/Sessions/Tests.antt =====
-- Requests of two tenants that use one connection.
use constructor.Prelude.{◌≡◌, refl, true, false, List, [], ◌∷◌, ◌++◌}
use constructor.Access.Sessions.{query, commit, Endpoint, Request, scoped, plain, handle_all}
use constructor.Access.Sessions.Leftover.{idle, left_by_all, seen_by_all, handle_all-left_by_all}

abbrev writes : Endpoint
writes = record { statements = query ∷ commit ∷ query ∷ []; raises = false }

abbrev reads : Endpoint
reads = record { statements = query ∷ []; raises = false }

abbrev fails : Endpoint
fails = record { statements = query ∷ []; raises = true }

-- A user of "t1" writes, somebody logs in, a user of "t2" fails to read, and a user of "t1" reads.
abbrev requests : List Request
requests =
    scoped true "t1" writes ∷ plain reads ∷ scoped false "t2" fails ∷ scoped true "t1" reads ∷ []

-- The login sees the tenant of the request before it, which was cleared.
leaks :
    (handle_all requests (idle "" [])).seen
    ≡ "" ∷ "t1" ∷ "t1" ∷ "t1" ∷ "t1" ∷ "t2" ∷ "t1" ∷ "t1" ∷ []
unfolding handle_all
leaks = refl

handle_all-left_by_all_example :
    handle_all requests (idle "" [])
    ≡ idle (left_by_all requests "") ([] ++ seen_by_all requests "")
handle_all-left_by_all_example = handle_all-left_by_all requests "" []
