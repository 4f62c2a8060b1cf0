-- ===== src/Realtime/Clients.antt =====
-- The sockets of one node: `handleConnection` of apps/api/src/modules/realtime/realtime.gateway.ts, and the messages of
-- several clients in any order.
use ai_saas_multi_tenant.Base.{
  ℕ, ◌==◌, ◌≡◌, Option, none, some, List, [], ◌∷◌, ◌++◌, Text, codes, if◌then◌else◌,
}
use ai_saas_multi_tenant.Prisma.{Prisma}
use ai_saas_multi_tenant.Model.Data.{RowId, User}
use ai_saas_multi_tenant.Model.World.{World}
use ai_saas_multi_tenant.Model.Platform.{Env}
use ai_saas_multi_tenant.Realtime.{
  SocketData, Node, handle_disconnect, on_join, on_leave, on_cursor,
}

-- `client.handshake`: `auth.token` and `headers.authorization`
pub record Handshake : Type 0 where
  pub auth_token : Option Text
  pub authorization : Option Text

abbrev pub bearer : Text
bearer = codes "Bearer "

abbrev pub drop_prefix : Text → Text → Option Text
drop_prefix [] t = some t
drop_prefix (p ∷ ps) [] = none
drop_prefix (p ∷ ps) (c ∷ t) = let rest = drop_prefix ps t in if p == c then rest else none

-- `replace(prefix, '')`, at the first place where the prefix stands
unfoldable pub without_first : Text → Text → Text
without_first prefix [] = []
without_first prefix (c ∷ t) =
    let later = without_first prefix t in
    elim (drop_prefix prefix (c ∷ t)) [ some rest ↦ rest | none ↦ c ∷ later ]

unfoldable pub handshake_token : Handshake → Option Text
handshake_token h = elim h.auth_token [
  | some t ↦ some t
  | none ↦ elim h.authorization [ some header ↦ some (without_first bearer header) | none ↦ none ]
]

-- `client.data` of a user who has just connected
abbrev pub connected_as : User → SocketData
connected_as u = record {
  user = record { user_id = u.id; name = u.name; avatar_url = u.avatar_url; cursor = none };
  rooms = [];
}

-- The subject of an access token, when it is signed with the secret, is `verifyAsync` of the JWT service.
module _ (jwt_verify : Text → ℕ → Option RowId) (env : Env) {db : Prisma} (w : World db) where
  abbrev pub connect_user : Option User → Option SocketData
  connect_user none = none
  connect_user (some u) = some (connected_as u)

  abbrev pub connect_subject : Option RowId → Option SocketData
  connect_subject none = none
  connect_subject (some sub) = connect_user (db.find_first (λ (u : User). u.id == sub) w.users)

  -- The empty token is missing too.
  abbrev pub connect_token : Option Text → Option SocketData
  connect_token none = none
  connect_token (some []) = none
  connect_token (some (c ∷ cs)) = connect_subject (jwt_verify (c ∷ cs) env.jwt_access_secret)

  -- None is a client that is disconnected.
  unfoldable pub handle_connection : Handshake → Option SocketData
  handle_connection h = connect_token (handshake_token h)

pub record System : Type 0 where
  pub clients : List SocketData
  pub node : Node

-- The clients before and after one, which has become `moved`.
abbrev pub with_client : List SocketData → List SocketData → SocketData × Node → System
with_client before after moved = record { clients = before ++ moved.0 ∷ after; node = moved.1 }

abbrev pub without_client : List SocketData → List SocketData → SocketData × Node → System
without_client before after moved = record { clients = before ++ after; node = moved.1 }

-- One event of the node, for any of the clients. A message of a client is handled against the tables as they are then.
-- `late` is a join that was read from the database before its client disconnected, and is carried out after.
pub data Step (db : Prisma) : System → System → Type 0 where
  connect :
      (jwt_verify : Text → ℕ → Option RowId) (env : Env) (w : World db) (h : Handshake)
      (c : SocketData) {s : System}
      → handle_connection jwt_verify env w h ≡ some c
      → Step db s (record s { clients = c ∷ s.clients })
  disconnect :
      (before : List SocketData) (c : SocketData) (after : List SocketData) {n : Node}
      → Step db
          (with_client before after (c, n))
          (without_client before after (handle_disconnect (c, n)))
  join :
      (w : World db) (project : RowId) (before : List SocketData) (c : SocketData)
      (after : List SocketData) {n : Node}
      → Step db
          (with_client before after (c, n))
          (with_client before after (on_join w project (c, n)))
  leave :
      (project : RowId) (before : List SocketData) (c : SocketData) (after : List SocketData)
      {n : Node}
      → Step db
          (with_client before after (c, n))
          (with_client before after (on_leave project (c, n)))
  cursor :
      (project : RowId) (issue : Option RowId) (before : List SocketData) (c : SocketData)
      (after : List SocketData) {n : Node}
      → Step db
          (with_client before after (c, n))
          (with_client before after (on_cursor project issue (c, n)))
  late :
      (w : World db) (project : RowId) (c : SocketData) {s : System}
      → Step db s (record s { node = (on_join w project (c, s.node)).1 })

-- The node has just started.
abbrev pub idle : System
idle = record { clients = []; node = record { presence = []; sent = [] } }

pub data Reach (db : Prisma) : System → Type 0 where
  start : Reach db idle
  later : {s t : System} → Reach db s → Step db s t → Reach db t
