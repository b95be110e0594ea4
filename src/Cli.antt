-- ===== src/Cli.antt =====
-- cli/cli.go: the storage that the flags of a program ask for. The constructors of the backends and
-- time.ParseDuration are parameters, as is the order in which Go ranges over a map.
pub mod Rows
mod Tests
use Prim.Native.Char.{code}
use Prim.Native.String.{[] as nil, ◌∷◌ as ◌▸◌}
use nanomdm.Common.{
  ℕ, zero, suc, String, Bool, not, ◌&&◌, Option, none, some, List, [], ◌∷◌, ◌++◌, ◌==◌, ◌^^◌, eqb,
  ltb, length, if◌then◌else◌,
}
use nanomdm.Common.Fault.{Error, Result, ok, err, fault, wrap, out_of_range, ◌>>=◌}
use nanomdm.Common.GoMap.{GoMap, set}
use nanomdm.File.Lines.{pieces}

-- The struct `Storage`, with the values of each flag in their order.
pub record Storage : Type 0 where
  pub storage : List String
  pub dsn : List String
  pub options : List String

-- StringAccumulator.Set
abbrev pub accumulate : String → List String → List String
accumulate value values = values ++ (value ∷ [])

-- `s[i]`
unfoldable at_index : ℕ → List String → Result String
at_index i [] = err out_of_range
at_index zero (x ∷ xs) = ok x
at_index (suc i) (x ∷ xs) = at_index i xs

-- what is before the first "=", and behind it
cut : String → String × Option String
cut nil = ("", none)
cut (ch ▸ s) =
    let (key, value) = cut s in if eqb (code ch) 61 then ("", some s) else (ch ▸ key, value)

-- strings.SplitN(opt, "=", 2), with "" where there is no value
key_and_value : String × Option String → String × String
key_and_value (k, none) = (k, "")
key_and_value (k, some v) = (k, v)

set_options : List String → GoMap String → GoMap String
unfolding cut key_and_value
set_options [] out = out
set_options (opt ∷ opts) out =
    let (k, v) = key_and_value (cut opt) in set_options opts (set k v out)

-- splitOptions
unfoldable split_options : String → GoMap String
unfolding set_options
split_options s = let (first, rest) = pieces 44 s in set_options (first ∷ rest) []

-- mysql.Option, of those that a flag sets; pgsql.Option has the first
pub data SqlOption (D : Type 0) : Type 0 where
  delete_commands : SqlOption D
  conn_max_lifetime conn_max_idle_time : D → SqlOption D

-- The constructors of the backends: file.New, mysql.New and pgsql.New of a DSN and more options,
-- inmem.New, diskv.New and allmulti.New, and what else is used of other packages.
pub record Backends (D A : Type 0) : Type 0 where
  pub file : String → Result A
  pub mysql : String → List (SqlOption D) → Result A
  pub pgsql : String → List (SqlOption D) → Result A
  pub inmem : A
  pub diskv : String → A
  pub allmulti : List A → A
  pub parse_duration : String → Result D
  pub quoted : String → String
  pub in_order : GoMap String → GoMap String

-- the default pair of a storage and a DSN
abbrev pub with_default : Storage → Storage
with_default s =
    if ltb (length s.storage) 1
    then record s { storage = s.storage ++ ("filekv" ∷ []); dsn = s.dsn ++ ("dbkv" ∷ []) }
    else s

module _ {D A : Type 0} (b : Backends D A) where
  -- the case of "delete"
  delete_option : String → Result (List (SqlOption D))
  delete_option v =
      if v == "1"
      then ok (delete_commands ∷ [])
      else if not (v == "0")
      then err (fault ("invalid value for delete option: " ^^ b.quoted v))
      else ok []

  -- the cases of the two durations
  duration_option : String → (D → SqlOption D) → Result D → Result (List (SqlOption D))
  duration_option text option (ok d) = ok (option d ∷ [])
  duration_option text option (err e) = err (wrap text e)

  mysql_option : String → String → Result (List (SqlOption D))
  unfolding delete_option duration_option
  mysql_option k v =
      if k == "delete"
      then delete_option v
      else if k == "conn_max_lifetime"
      then duration_option "invalid value for conn_max_lifetime option" conn_max_lifetime
          (b.parse_duration v)
      else if k == "conn_max_idle_time"
      then duration_option "invalid value for conn_max_idle_time option" conn_max_idle_time
          (b.parse_duration v)
      else err (fault ("invalid option: " ^^ b.quoted k))

  pgsql_option : String → String → Result (List (SqlOption D))
  unfolding delete_option
  pgsql_option k v =
      if k == "delete" then delete_option v else err (fault ("invalid option: " ^^ b.quoted k))

  -- the loop over the options
  sql_options :
      (String → String → Result (List (SqlOption D))) → GoMap String → Result (List (SqlOption D))
  sql_options option [] = ok []
  sql_options option ((k, v) ∷ m) =
      let rest = sql_options option m in option k v >>= λ first. rest >>= λ more. ok (first ++ more)

  -- mysqlStorageConfig
  unfoldable mysql_storage_config : String → String → Result A
  unfolding sql_options mysql_option split_options
  mysql_storage_config dsn options =
      (if not (options == "")
        then sql_options mysql_option (b.in_order (split_options options))
        else ok [])
      >>= λ opts. b.mysql dsn opts

  -- pgsqlStorageConfig
  unfoldable pgsql_storage_config : String → String → Result A
  unfolding sql_options pgsql_option split_options
  pgsql_storage_config dsn options =
      (if not (options == "")
        then sql_options pgsql_option (b.in_order (split_options options))
        else ok [])
      >>= λ opts. b.pgsql dsn opts

  err_no_storage_options : Error
  err_no_storage_options =
      fault "storage backend does not support options, please specify no (or empty) options"

  err_missing_dsn : Error
  err_missing_dsn = fault "missing required DSN"

  -- one round of the loop of `Parse`: the switch on the storage's name
  unfoldable set_up : String → String → String → Result A
  unfolding mysql_storage_config pgsql_storage_config err_no_storage_options err_missing_dsn
  set_up name dsn options =
      if name == "file"
      then if not (options == "enable_deprecated=1")
        then err (fault "file backend is deprecated; specify storage options to force enable")
        else if dsn == ""
        then err err_missing_dsn
        else b.file dsn
      else if name == "mysql"
      then mysql_storage_config dsn options
      else if name == "pgsql"
      then pgsql_storage_config dsn options
      else if name == "inmem"
      then if not (options == "") then err err_no_storage_options else ok b.inmem
      else if name == "filekv"
      then if dsn == ""
        then err err_missing_dsn
        else if not (options == "")
        then err err_no_storage_options
        else ok (b.diskv dsn)
      else err (fault ("unknown storage: " ^^ name))

  option_at : ℕ → List String → Result String
  unfolding at_index
  option_at i options = if ltb 0 (length options) then at_index i options else ok ""

  -- the loop of `Parse`, from an index on
  unfoldable set_up_from : Storage → ℕ → List String → Result (List A)
  unfolding option_at
  set_up_from s i [] = ok []
  set_up_from s i (name ∷ names) =
      let rest = set_up_from s (suc i) names in
      at_index i s.dsn >>= λ dsn. option_at i s.options >>= λ options.
      set_up name dsn options >>= λ first. rest >>= λ more. ok (first ∷ more)

  -- one storage, or all of them
  unfoldable combined : List A → Result A
  combined [] = err (fault "no storage setup")
  combined (a ∷ []) = ok a
  combined (a ∷ c ∷ more) = ok (b.allmulti (a ∷ c ∷ more))

  -- Storage.Parse
  unfoldable parse : Storage → Result A
  unfolding set_up_from combined
  parse s =
      if not (eqb (length s.storage) (length s.dsn))
      then err (fault "must have same number of storage and DSN flags")
      else if ltb 0 (length s.options) && not (eqb (length s.storage) (length s.options))
      then err (fault "must have same number of storage and storage options flags")
      else let t = with_default s in set_up_from t 0 t.storage >>= λ all. combined all
