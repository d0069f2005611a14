-- ===== src/Ingestion/Warehouse.antt =====
-- The ClickHouse client that the pipeline writes through. ClickHouse is not part of the program: it is
-- an interface, with the documented effect of each statement on the rows of each partition as laws.
use precis_mcp.Common.{
  drop, filterb, ◌==◌, Text, codes, nat_eq, text_eq, string_eq, if◌then◌else◌, ℕ, ◌≡◌, ◌&&◌, Option,
  none, some, List, [], ◌++◌,
}
use precis_mcp.Common.Result.{Result, ok, err}
use precis_mcp.Common.Strings.{starts_with}

-- A row: its period column, the load that wrote it, and its other columns as one opaque number.
pub record TableRow : Type 0 where
  pub period : Text
  pub load_id : Text
  pub payload : ℕ

-- The statements that the pipeline sends, by the tables and the partition that they name.
pub data Statement : Type 0 where
  drop_partition : (table period : Text) → Statement
  truncate : (table : Text) → Statement
  replace_partition : (target period staging : Text) → Statement
  exchange_tables : (a b : Text) → Statement

-- The text of a statement, as the f-strings of swap.py and ibis_executor.py put it together.
unfoldable pub render : Statement → Text
render (drop_partition table period) =
    codes "ALTER TABLE " ++ (table ++ (codes " DROP PARTITION '" ++ (period ++ codes "'")))
render (truncate table) = codes "TRUNCATE TABLE IF EXISTS " ++ table
render (replace_partition target period staging) =
    codes "ALTER TABLE "
    ++ (target ++ (codes " REPLACE PARTITION '" ++ (period ++ (codes "' FROM " ++ staging))))
render (exchange_tables a b) = codes "EXCHANGE TABLES " ++ (a ++ (codes " AND " ++ b))

abbrev pub of_period : Text → List TableRow → List TableRow
of_period p rows = filterb (λ r. r.period == p) rows

-- `none` is an exception; a statement that raises has changed nothing.
pub record ClickHouse : Type 1 where
  pub Store : Type 0
  -- the rows of one partition of one table
  pub rows : Store → Text → Text → List TableRow
  pub command : Statement → Store → Option Store
  pub insert_df : Text → List TableRow → Store → Option Store
  pub rows-drop :
      (table p : Text) (s s' : Store)
      → command (drop_partition table p) s ≡ some s'
      → (t q : Text) → rows s' t q ≡ (if t == table && q == p then [] else rows s t q)
  pub rows-truncate :
      (table : Text) (s s' : Store)
      → command (truncate table) s ≡ some s'
      → (t q : Text) → rows s' t q ≡ (if t == table then [] else rows s t q)
  pub rows-replace :
      (target p staging : Text) (s s' : Store)
      → command (replace_partition target p staging) s ≡ some s'
      → (t q : Text)
      → rows s' t q ≡ (if t == target && q == p then rows s staging p else rows s t q)
  pub rows-exchange :
      (a b : Text) (s s' : Store)
      → command (exchange_tables a b) s ≡ some s'
      → (t q : Text)
      → rows s' t q ≡ (if t == a then rows s b q else if t == b then rows s a q else rows s t q)
  pub rows-insert :
      (table : Text) (new : List TableRow) (s s' : Store)
      → insert_df table new s ≡ some s'
      → (t q : Text)
      → rows s' t q ≡ (if t == table then rows s t q ++ of_period q new else rows s t q)

-- A call that may raise and that may have changed the store before it raised.
abbrev pub Exec : Type 0 → Type 0 → Type 0 → Type 0
Exec S E A = S → Result E A × S

module _ {S E A B : Type 0} where
  abbrev pub continue : Result E A → (A → Exec S E B) → Exec S E B
  continue (ok a) f s = f a s
  continue (err e) f s = (err e, s)

  infixl 5 ◌>>>◌
  abbrev pub ◌>>>◌ : Exec S E A → (A → Exec S E B) → Exec S E B
  ◌>>>◌ m f s = let (r, s') = m s in continue r f s'

-- The live table's twin: `_staging_for` of swap.py, `_staging_table` of ibis_executor.py and
-- `staging_target` of registry.py. `none` is the exception.
unfoldable pub staging_for : Text → Option Text
staging_for target =
    if starts_with (codes "live.") target then some (codes "staging." ++ drop 5 target) else none
