-- ===== src/Api/Follows.antt =====
-- The requests that the server is sent, and the calls of the store that they come down to, one by one.
use watchkeeper.Prelude.{◌≡◌, ◌⊎◌, List, [], ◌∷◌}
use watchkeeper.Store.Rows.{Db}
use watchkeeper.Store.Tx.{World}
use watchkeeper.Store.Calls.{Call, perform}
use watchkeeper.Api.Http.{Response, Checked}
use watchkeeper.Api.Payloads.{Request}
use watchkeeper.Api.Server.{Server, Moment, Endpoint, identified}
use watchkeeper.Api.Calls.{Visit}
use watchkeeper.Api.Asked.{Asked}

module _ (s : Server) (m : Moment) (r : Request) (db : Db) where
  -- The tables are as before, or as a call leaves them that the request asks for.
  Stepped : Endpoint → Response × Db → Type 0
  Stepped e x = (x.1 ≡ db) ⊎ ((c : Call) × Asked s m r e c × (x.1 ≡ perform c m.world db))

-- The calls of a list of requests, in order: a request is passed over, or has one call that it asks
-- for, in the world that it meets.
pub data Follows (s : Server) : List Visit → List (World × Call) → Type 0 where
  at_end : Follows s [] []
  passed_over :
      {v : Visit} {visits : List Visit} {calls : List (World × Call)}
      → Follows s visits calls
      → Follows s (v ∷ visits) calls
  answered_by :
      {v : Visit} {c : Call} {visits : List Visit} {calls : List (World × Call)}
      → Asked s v.moment (identified v.moment.fresh_id v.request) v.endpoint c
      → Follows s visits calls
      → Follows s (v ∷ visits) ((v.moment.world, c) ∷ calls)
