-- ===== src/Web/Cache.antt =====
-- The cached issues of a board: the event handlers of apps/web/lib/use-board-realtime.ts and the
-- optimistic mutations of apps/web/lib/hooks.ts. The cache of a query is `none` until it is loaded.
use ai_saas_multi_tenant.Base.{
  Bool, false, ◌||◌, Option, none, some, List, [], ◌∷◌, ◌++◌, map, Text, ◌==◌, if◌then◌else◌,
}
use ai_saas_multi_tenant.Prisma.Rows.{update_row, remove}
use ai_saas_multi_tenant.Model.Data.{RowId, IssueRow, IssueStatus, BoardEvent}
use ai_saas_multi_tenant.Services.Issues.{UpdateIssueInput, MoveIssueInput, optional_text}
use ai_saas_multi_tenant.Services.Notifications.{or_kept}

-- `l.some((i) => i.id === id)`
abbrev pub has_id : RowId → List IssueRow → Bool
has_id id [] = false
has_id id (i ∷ is) = i.id == id || has_id id is

-- `{ ...i, status, rank }`
abbrev pub place_row : IssueStatus → Text → IssueRow → IssueRow
place_row status rank i = record i { status = status; rank = rank }

-- `{ ...i, ...input }`
abbrev pub patch_row : UpdateIssueInput → IssueRow → IssueRow
patch_row input i = record i {
  title = or_kept input.title i.title;
  description = optional_text input.description i.description;
  status = or_kept input.status i.status;
  priority = or_kept input.priority i.priority;
  due_date = or_kept input.due_date i.due_date;
  assignee_id = or_kept input.assignee_id i.assignee_id;
}

-- The handler of each event, on the list; an event carries what the query selected.
unfoldable pub apply_event : BoardEvent → List IssueRow → List IssueRow
apply_event (BoardEvent.created issue) l = if has_id issue.id l then l else l ++ issue ∷ []
apply_event (BoardEvent.updated issue) l = map (update_row (λ i. i.id == issue.id) (λ _. issue)) l
apply_event (BoardEvent.moved id status rank) l =
    map (update_row (λ i. i.id == id) (place_row status rank)) l
apply_event (BoardEvent.deleted id) l = remove (λ i. i.id == id) l

abbrev pub Cache : Type 0
Cache = Option (List IssueRow)

-- `old ?? []`
abbrev pub loaded : Cache → List IssueRow
loaded none = []
loaded (some l) = l

-- What `onMutate` leaves: the patched cache, and the snapshot for a rollback.
pub record Mutation : Type 0 where
  pub cache : Cache
  pub previous : Cache

abbrev pub mutate : (List IssueRow → List IssueRow) → Cache → Mutation
mutate patch old = record { cache = some (patch (loaded old)); previous = old }

unfoldable pub on_mutate_move : RowId → MoveIssueInput → Text → Cache → Mutation
on_mutate_move id input optimistic_rank old =
    mutate (map (update_row (λ i. i.id == id) (place_row input.status optimistic_rank))) old

unfoldable pub on_mutate_update : RowId → UpdateIssueInput → Cache → Mutation
on_mutate_update id input old = mutate (map (update_row (λ i. i.id == id) (patch_row input))) old

unfoldable pub on_mutate_delete : RowId → Cache → Mutation
on_mutate_delete id old = mutate (remove (λ i. i.id == id)) old

-- `onError`: back to the snapshot, where there is one
unfoldable pub on_error : Mutation → Cache
on_error m = elim m.previous [ none ↦ m.cache | some l ↦ some l ]
