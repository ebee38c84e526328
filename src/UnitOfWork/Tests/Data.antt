-- ===== src/UnitOfWork/Tests/Data.antt =====
-- Concrete entities, an environment and a database that counts its writes.
use toolkit.Prelude.{
  Option, none, some, ℕ, suc, ◌/◌, ◌%◌, ◌≡◌, refl, Bool, true, false, ◌==◌, ◌&&◌, List, [], ◌∷◌,
  Bytes, arith, count, if◌then◌else◌,
}
use toolkit.UnitOfWork.Commit.{Env}
use toolkit.UnitOfWork.Dependency.{DependencyManager, Ordering}
use toolkit.UnitOfWork.Dependency.Edges.{IsMap}
use toolkit.UnitOfWork.Entity.{Value, nil, value, Heap, other_kind}
use toolkit.UnitOfWork.Execute.{Gorm, Result, World}
use toolkit.UnitOfWork.Snapshot.{Reflect}

abbrev same_content : Value → Value → Bool
same_content nil nil = true
same_content (value s x) (value t y) = (s == t) && (x == y)
same_content _ _ = false

abbrev text_of : Value → Option Bytes
text_of nil = none
text_of (value t x) = some (t ∷ x ∷ [])

abbrev value_of : Bytes → Option Value
value_of (t ∷ x ∷ []) = some (value t x)
value_of _ = none

-- `<uint Value>`
abbrev pub uint_text : Bytes
uint_text = b'<' ∷ b'u' ∷ b'i' ∷ b'n' ∷ b't' ∷ 32 ∷ b'V' ∷ b'a' ∷ b'l' ∷ b'u' ∷ b'e' ∷ b'>' ∷ []

abbrev pub reflect : Reflect
reflect = record {
  deep_equal = same_content;
  marshal = text_of;
  decode = value_of;
  type_string = λ t. t ∷ [];
  value_string = λ n. uint_text;
}

insert_by : (ℕ → ℕ → Bool) → ℕ → List ℕ → List ℕ
insert_by less x [] = x ∷ []
insert_by less x (y ∷ ys) =
    let rest = insert_by less x ys in if less y x then y ∷ rest else x ∷ y ∷ ys

unfoldable pub sort_by : (ℕ → ℕ → Bool) → List ℕ → List ℕ
unfolding insert_by
sort_by less [] = []
sort_by less (x ∷ xs) = insert_by less x (sort_by less xs)

count-insert_by :
    (a : ℕ) (less : ℕ → ℕ → Bool) (x : ℕ) (xs : List ℕ)
    → count a (insert_by less x xs) ≡ count a (x ∷ xs)
unfolding insert_by
count-insert_by a less x [] = refl
count-insert_by a less x (y ∷ ys) = ground (arith, count-insert_by a less x ys)

pub count-sort_by :
    (a : ℕ) (less : ℕ → ℕ → Bool) (xs : List ℕ) → count a (sort_by less xs) ≡ count a xs
unfolding sort_by
count-sort_by a less [] = refl
count-sort_by a less (x ∷ xs) =
    ground (arith, count-sort_by a less xs, count-insert_by a less x (sort_by less xs))

abbrev pub ordering : Ordering
ordering = record {
  sort_slice = sort_by;
  range_keys = λ xs. xs;
  count-sort_slice = count-sort_by;
  count-range_keys = λ a xs. refl;
}

-- The entity `10 * t + n` has type `t`, ID `n` and a field with content `n`.
abbrev pub heap : Heap
heap r = record {
  type = r / 10;
  base = record {
    id = r % 10;
    created_at = 0;
    updated_at = 0;
    deleted_at = record { time = 0; valid = false };
    revision = 3;
  };
  fields =
      record {
        name = b'N' ∷ [];
        can_interface = true;
        ignored = false;
        kind = other_kind;
        is_time = false;
        content = value 0 (r % 10);
      }
      ∷ [];
  is_validatable = false;
  has_timestamps = true;
  has_revision = true;
  is_soft_delete = false;
}

-- Type 2 depends on type 1.
abbrev pub dependencies : DependencyManager
dependencies = record { dependency_graph = (1, 2 ∷ []) ∷ []; entity_weights = [] }

pub dependencies-IsMap : IsMap dependencies.dependency_graph
dependencies-IsMap u = ground arith

abbrev written : ℕ → Heap → ℕ → Result ℕ
written rows h db = record { db = suc db; heap = h; failed = false; rows_affected = rows }

-- Each call is one write; an update finds so many rows.
abbrev pub gorm : ℕ → Gorm ℕ
gorm rows = record {
  create = λ e h db. written 1 h db;
  create_in_batches = λ es size h db. written 1 h db;
  updates_where = λ id revision e h db. written rows h db;
  save = λ e h db. written 1 h db;
  delete_unscoped = λ e h db. written 1 h db;
  delete_all = λ es h db. written 1 h db;
  validate = λ o. true;
  now = λ e db. db;
}

abbrev pub env : Env ℕ
env = record { reflect = reflect; ordering = ordering; sprint_id = λ n. n ∷ []; gorm = gorm 1 }

abbrev pub world : World ℕ
world = record { db = 0; heap = heap }
