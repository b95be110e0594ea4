-- ===== src/Kv/LinkedQueue.antt =====
-- storage/kv/queue_ll.go: a doubly linked list of command UUIDs, one for each enrollment, held under
-- the keys of a bucket. An absent key and an empty value both read as "".
pub mod Slots
pub mod Shape
pub mod Relink
pub mod Unlink
pub mod Runs
pub mod Clear
use nanomdm.Common.{String, ℕ, zero, suc, [], ◌∷◌, ◌==◌, ◌^^◌, if◌then◌else◌}
use nanomdm.Common.Fault.{Result, ok, err, wrap, diverged, is_not_found}
use nanomdm.Common.Exec.{Exec, pure, raise, lift, attempt, map_error, ◌>>=◌, ◌>>◌}
use nanomdm.Bucket.{Bucket}
use nanomdm.Kv.Key.{join}

-- the struct `queue`, whose bucket `b` is the parameter of the operations
pub record Queue : Type 0 where
  pub queue_key : String
  pub name : String

abbrev pub queue_key_name : Queue → String → String
queue_key_name q name = join (q.queue_key ∷ "queuekey" ∷ q.name ∷ name ∷ [])

abbrev pub item_key_name : Queue → String → String → String
item_key_name q id name = join (q.queue_key ∷ id ∷ "queueitem" ∷ name ∷ [])

-- `r, err := b.Get(…)`: a missing key is "", another error is wrapped
abbrev pub or_empty : String → Result String → Result String
or_empty text (ok r) = ok r
or_empty text (err e) = if is_not_found e then ok "" else err (wrap text e)

-- What the loops below read of a fetched ID: on an error the Go function returns "" beside it, and
-- "" is what ends the loop.
abbrev pub cursor : Result String → String
cursor (ok id) = id
cursor (err e) = ""

module _ {S : Type 0} (b : Bucket S) (q : Queue) where
  unfoldable pub get_first : Exec S String
  get_first = attempt (b.get (queue_key_name q "first")) λ r. lift (or_empty "queue get first" r)

  unfoldable pub get_last : Exec S String
  get_last = attempt (b.get (queue_key_name q "last")) λ r. lift (or_empty "queue get last" r)

  unfoldable pub set_first : String → Exec S Unit
  set_first id = map_error (wrap "queue set first") (b.set (queue_key_name q "first") id)

  unfoldable pub set_last : String → Exec S Unit
  set_last id = map_error (wrap "queue set last") (b.set (queue_key_name q "last") id)

  unfoldable pub get_next : String → Exec S String
  get_next id =
      attempt (b.get (item_key_name q id "next"))
        λ r. lift (or_empty ("queueitem get next of " ^^ id) r)

  unfoldable pub get_prev : String → Exec S String
  get_prev id =
      attempt (b.get (item_key_name q id "prev"))
        λ r. lift (or_empty ("queueitem get prev of " ^^ id) r)

  unfoldable pub set_next : String → String → Exec S Unit
  set_next id next =
      map_error (wrap ("queueitem set next of " ^^ id ^^ " to " ^^ next))
        (b.set (item_key_name q id "next") next)

  unfoldable pub set_prev : String → String → Exec S Unit
  set_prev id prev =
      map_error (wrap ("queueitem set prev of " ^^ id ^^ " to " ^^ prev))
        (b.set (item_key_name q id "prev") prev)

  -- the part of `unlink` that mends the list round the item, by what its two pointers are
  unfoldable pub unlink_from : String → String → Exec S Unit
  unlink_from prev next =
      if prev == ""
      then if next == ""
        then map_error (wrap "first first and last")
            (b.delete_slice (queue_key_name q "last" ∷ queue_key_name q "first" ∷ []))
        else (do set_first next; b.delete (item_key_name q next "prev"))
      else if next == ""
      then set_last prev
      else (do set_next prev next; set_prev next prev)

  unfoldable pub unlink : String → Exec S Unit
  unlink id = do
    prev ← get_prev id
    next ← get_next id
    unlink_from prev next
    map_error (wrap "delete prev and next")
        (b.delete_slice (item_key_name q id "prev" ∷ item_key_name q id "next" ∷ []))

  unfoldable pub enqueue : String → Exec S Unit
  enqueue id = do
    last ← get_last
    if last == ""
        then (do set_first id; set_last id)
        else (do set_next last id; set_prev id last; set_last id)

  -- `if lastID != ""`: the pointers of the item before are deleted
  unfoldable pub drop_pointers : String → Exec S Unit
  drop_pointers last_id =
      if last_id == ""
      then pure tt
      else b.delete_slice (item_key_name q last_id "next" ∷ item_key_name q last_id "prev" ∷ [])

  -- the loop of `clear`, from an item that was fetched
  unfoldable pub clear_from : ℕ → String → Result String → Exec S Unit
  clear_from zero last_id fetched = raise diverged
  clear_from (suc fuel) last_id fetched =
      let id = cursor fetched in
      let round = (do drop_pointers last_id; attempt (get_next id) (clear_from fuel id)) in
      if id == ""
      then b.delete_slice (queue_key_name q "first" ∷ queue_key_name q "last" ∷ [])
      else round

  unfoldable pub clear : ℕ → Exec S Unit
  clear fuel = attempt get_first (clear_from fuel "")
