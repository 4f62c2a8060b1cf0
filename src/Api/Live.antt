-- ===== src/Api/Live.antt =====
-- A board that is open in a browser while requests are served: the events of its room, as
-- apps/api/src/modules/realtime/realtime.gateway.ts sends them, reach the handlers of
-- apps/web/lib/use-board-realtime.ts in the order in which they were emitted.
mod Lists
pub mod Orders
pub mod Rooms
pub mod Changes
pub mod Reach
use ai_saas_multi_tenant.Base.{
  ℕ, ◌≡◌, ◌⊎◌, Bool, true, false, ◌&&◌, ◌==◌, List, [], ◌∷◌, ◌++◌, map, Perm, if◌then◌else◌,
}
use ai_saas_multi_tenant.Prisma.{Prisma}
use ai_saas_multi_tenant.Prisma.Rows.{In, select}
use ai_saas_multi_tenant.Model.Data.{RowId, Project, IssueRow, Emission}
use ai_saas_multi_tenant.Model.World.{World}
use ai_saas_multi_tenant.Services.Issues.{selected}
use ai_saas_multi_tenant.Web.Sync.{rows_of}
use ai_saas_multi_tenant.Web.Cache.{apply_event}

-- `projectRoom(orgId, projectId)` is that of the emission.
abbrev pub in_room : RowId → RowId → Emission → Bool
in_room org project e = e.organization_id == org && e.project_id == project

-- The handlers of a client in the room, on what was emitted.
unfoldable pub apply_all : RowId → RowId → List Emission → List IssueRow → List IssueRow
apply_all org project [] l = l
apply_all org project (e ∷ es) l =
    apply_all org project es (if in_room org project e then apply_event e.event l else l)

module _ {db : Prisma} where
  -- What the queries select of the rows of a project.
  abbrev pub cards_of : RowId → World db → List IssueRow
  cards_of project w = map selected (rows_of project w)

  -- The project is stored, in the organization.
  abbrev pub IsProject : RowId → RowId → World db → Type 0
  IsProject org project w =
      (p : Project) × In p (db.rows w.projects) × (p.id ≡ project) × (p.organization_id ≡ org)

  -- Something was emitted, and a cache to which it is applied holds the cards from behind, each once for
  -- each row, in some order.
  abbrev pub IsShown : RowId → RowId → List IssueRow → World db → World db → Type 0
  IsShown org project l w v =
      (es : List Emission) × (v.emitted ≡ w.emitted ++ es)
      × Perm (apply_all org project es l) (cards_of project v)

  -- Something was emitted, and who applies it to the cards from before has the cards from behind.
  abbrev pub IsLive : RowId → RowId → World db → World db → Type 0
  IsLive org project w v =
      (es : List Emission) × (v.emitted ≡ w.emitted ++ es)
      × (apply_all org project es (cards_of project w) ≡ cards_of project v)
