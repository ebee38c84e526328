-- ===== src/Protobuf/Stores.antt =====
-- The global stores of protobuf/v3/message.go that the generator writes, and code that writes them.
use toolkit.Prelude.{List, Bytes, bytes_eq_instance}
use toolkit.Prelude.Map.{insert}
use toolkit.Protobuf.Messages.{Message}

-- `MessageStore` and `ImportStore`
pub record Stores : Type 0 where
  pub messages : List (Bytes × Message)
  pub imports : List (Bytes × Unit {0})

-- A result and the stores after it, a panic, or a nesting deeper than the given depth.
pub data Outcome (A : Type 0) : Type 0 where
  done : A → Stores → Outcome A
  panicked : Outcome A
  too_deep : Outcome A

abbrev pub M : Type 0 → Type 0
M A = Stores → Outcome A

infixl 5 ◌>>=◌
abbrev pub ◌>>=◌ : {A B : Type 0} → M A → (A → M B) → M B
◌>>=◌ m f s = elim (m s) [ done a s' ↦ f a s' | panicked ↦ panicked | too_deep ↦ too_deep ]

abbrev pub return : {A : Type 0} → A → M A
return a s = done a s

unfoldable pub store_message : Bytes → Message → Stores → Stores
unfolding insert
store_message name m s = record s { messages = insert name m s.messages }

unfoldable pub import_file : Bytes → Stores → Stores
unfolding insert
import_file file s = record s { imports = insert file tt s.imports }
