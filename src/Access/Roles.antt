-- ===== src/Access/Roles.antt =====
-- The ladder of roles of precis_mcp/auth.py: which role block decides for a type of tool.
use precis_mcp.Common.{
  filterb, text_eq, string_eq, nat_eq, ltb, leb, if◌then◌else◌, ◌≡◌, refl, Bool, true, false, ◌&&◌,
  ◌||◌, Option, none, List, [], ◌∷◌, arith,
}
use precis_mcp.Common.Strings.{is_some}
use precis_mcp.Scope.{ScopeSpec}
use precis_mcp.Access.{
  Role, role_rank, ToolType, min_rank, Blocks, roles, highest, lowest, is_role, block_of,
  chosen_scope, compute_tool_scopes, analyst, planner, manager, read, write, plan_manager,
}
use precis_mcp.Access.Ladders.{first_block, qualifying}

abbrev has : Role → List Role → Bool
has role [] = false
has role (r ∷ rs) = is_role r role || has role rs

abbrev least : Bool → Bool → Role
least a p = if a then analyst else if p then planner else manager

abbrev greatest : Bool → Bool → Role
greatest m p = if m then manager else if p then planner else analyst

lowest_lem :
    (best : Role) (rs : List Role)
    → lowest best rs ≡ least (has analyst (best ∷ rs)) (has planner (best ∷ rs))
unfolding lowest
lowest_lem analyst [] = refl
lowest_lem planner [] = refl
lowest_lem manager [] = refl
lowest_lem analyst (analyst ∷ rs) = lowest_lem analyst rs
lowest_lem analyst (planner ∷ rs) = lowest_lem analyst rs
lowest_lem analyst (manager ∷ rs) = lowest_lem analyst rs
lowest_lem planner (analyst ∷ rs) = lowest_lem analyst rs
lowest_lem planner (planner ∷ rs) = lowest_lem planner rs
lowest_lem planner (manager ∷ rs) = lowest_lem planner rs
lowest_lem manager (analyst ∷ rs) = lowest_lem analyst rs
lowest_lem manager (planner ∷ rs) = lowest_lem planner rs
lowest_lem manager (manager ∷ rs) = lowest_lem manager rs

highest_lem :
    (best : Role) (rs : List Role)
    → highest best rs ≡ greatest (has manager (best ∷ rs)) (has planner (best ∷ rs))
unfolding highest
highest_lem analyst [] = refl
highest_lem planner [] = refl
highest_lem manager [] = refl
highest_lem analyst (analyst ∷ rs) = highest_lem analyst rs
highest_lem analyst (planner ∷ rs) = highest_lem planner rs
highest_lem analyst (manager ∷ rs) = highest_lem manager rs
highest_lem planner (analyst ∷ rs) = highest_lem planner rs
highest_lem planner (planner ∷ rs) = highest_lem planner rs
highest_lem planner (manager ∷ rs) = highest_lem manager rs
highest_lem manager (analyst ∷ rs) = highest_lem manager rs
highest_lem manager (planner ∷ rs) = highest_lem manager rs
highest_lem manager (manager ∷ rs) = highest_lem manager rs

has-filterb :
    (p : Role → Bool) (role : Role) (rs : List Role)
    → has role (filterb p rs) ≡ (p role && has role rs)
has-filterb p role [] = ground arith
has-filterb p analyst (analyst ∷ rs) = ground (arith, has-filterb p analyst rs)
has-filterb p analyst (planner ∷ rs) = ground (arith, has-filterb p analyst rs)
has-filterb p analyst (manager ∷ rs) = ground (arith, has-filterb p analyst rs)
has-filterb p planner (analyst ∷ rs) = ground (arith, has-filterb p planner rs)
has-filterb p planner (planner ∷ rs) = ground (arith, has-filterb p planner rs)
has-filterb p planner (manager ∷ rs) = ground (arith, has-filterb p planner rs)
has-filterb p manager (analyst ∷ rs) = ground (arith, has-filterb p manager rs)
has-filterb p manager (planner ∷ rs) = ground (arith, has-filterb p manager rs)
has-filterb p manager (manager ∷ rs) = ground (arith, has-filterb p manager rs)

is_some-block_of :
    (role : Role) (blocks : Blocks) → is_some (block_of role blocks) ≡ has role (roles blocks)
is_some-block_of role [] = refl
is_some-block_of role ((r, scope) ∷ blocks) = ground (arith, is_some-block_of role blocks)

abbrev ladder : Bool → Bool → Bool → Blocks → Option (Option ScopeSpec)
ladder a p m blocks =
    if a
    then block_of analyst blocks
    else if p
    then block_of planner blocks
    else if m
    then block_of manager blocks
    else none

chosen_scope_lem :
    (rs : List Role) (blocks : Blocks)
    → chosen_scope rs blocks ≡ ladder (has analyst rs) (has planner rs) (has manager rs) blocks
chosen_scope_lem [] blocks = refl
chosen_scope_lem (analyst ∷ rs) blocks = rw (lowest_lem analyst rs)
chosen_scope_lem (planner ∷ rs) blocks = ground (arith, lowest_lem planner rs)
chosen_scope_lem (manager ∷ rs) blocks = ground (arith, lowest_lem manager rs)

abbrev may : ToolType → Role → Bool
may tool r = leb (min_rank tool) (role_rank r)

module _ (blocks : Blocks) where
  candidates :
      (tool : ToolType) (role : Role)
      → has role (filterb (may tool) (roles blocks))
        ≡ (may tool role && is_some (block_of role blocks))
  candidates tool role =
      rw (has-filterb (may tool) role (roles blocks), is_some-block_of role blocks)

  chosen :
      (tool : ToolType)
      → chosen_scope (filterb (may tool) (roles blocks)) blocks
        ≡ first_block (qualifying tool) blocks
  chosen read = ground (
    arith,
    chosen_scope_lem (filterb (may read) (roles blocks)) blocks,
    candidates read analyst,
    candidates read planner,
    candidates read manager,
  )
  chosen write = ground (
    arith,
    chosen_scope_lem (filterb (may write) (roles blocks)) blocks,
    candidates write analyst,
    candidates write planner,
    candidates write manager,
  )
  chosen plan_manager = ground (
    arith,
    chosen_scope_lem (filterb (may plan_manager) (roles blocks)) blocks,
    candidates plan_manager analyst,
    candidates plan_manager planner,
    candidates plan_manager manager,
  )

  too_low :
      (tool : ToolType) (role : Role) (rs : List Role)
      → roles blocks ≡ role ∷ rs
      → ltb (role_rank (highest role rs)) (min_rank tool) ≡ true
      → none ≡ first_block (qualifying tool) blocks
  too_low read role rs h low = ground arith
  too_low write role rs h low =
      ground (
        arith,
        highest_lem role rs,
        is_some-block_of planner blocks,
        is_some-block_of manager blocks,
      )
  too_low plan_manager role rs h low =
      ground (arith, highest_lem role rs, is_some-block_of manager blocks)

-- For every profile, the scope that a type of tool gets is that of the lowest role with a block among those
-- that may use it: from analyst up for reading, from planner up for writing, the manager's for managing
-- plans; and the type is not granted at all where no such role has a block.
pub compute_tool_scopes-first_block :
    (blocks : Blocks) (tool : ToolType)
    → (compute_tool_scopes blocks).tool_scopes tool ≡ first_block (qualifying tool) blocks
unfolding compute_tool_scopes
compute_tool_scopes-first_block [] read = refl
compute_tool_scopes-first_block [] write = refl
compute_tool_scopes-first_block [] plan_manager = refl
compute_tool_scopes-first_block ((role, scope) ∷ blocks) tool = ground (
  arith,
  chosen ((role, scope) ∷ blocks) tool,
  too_low ((role, scope) ∷ blocks) tool role (roles blocks) refl,
)
