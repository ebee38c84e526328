-- ===== src/Protobuf/Ensures.antt =====
-- What holds after code over the stores of protobuf/v3 if it returns.
use toolkit.Prelude.{
  ◌≡◌, refl, subst, Bool, true, false, none, some, Bytes, arith, bytes_eq_instance,
}
use toolkit.Prelude.Map.{lookup, lookup-insert}
use toolkit.Protobuf.Messages.{Message}
use toolkit.Protobuf.Stores.{
  Stores, Outcome, done, panicked, too_deep, M, ◌>>=◌, store_message, import_file,
}

abbrev pub Ensures : {A : Type 0} → (A → Stores → Type 0) → Outcome A → Type 0
Ensures P (done a s) = P a s
Ensures P panicked = Unit
Ensures P too_deep = Unit

bind-outcome :
    {A B : Type 0}
    → (P : A → Stores → Type 0) (Q : B → Stores → Type 0) (o : Outcome A) (f : A → M B)
    → Ensures P o
    → ((a : A) (s : Stores) → P a s → Ensures Q (f a s))
    → Ensures Q (elim o [ done a s ↦ f a s | panicked ↦ panicked | too_deep ↦ too_deep ])
bind-outcome P Q (done a s) f first next = next a s first
bind-outcome P Q panicked f first next = tt
bind-outcome P Q too_deep f first next = tt

pub Ensures-bind :
    {A B : Type 0}
    → (P : A → Stores → Type 0) (Q : B → Stores → Type 0) (m : M A) (f : A → M B) (s : Stores)
    → Ensures P (m s)
    → ((a : A) (s' : Stores) → P a s' → Ensures Q (f a s'))
    → Ensures Q ((m >>= f) s)
Ensures-bind P Q m f s first next = bind-outcome P Q (m s) f first next

pub Ensures-done :
    {A : Type 0}
    → (P : A → Stores → Type 0) (o : Outcome A) (a : A) (s : Stores) → Ensures P o
    → o ≡ done a s
    → P a s
Ensures-done P o a s holds e = subst (Ensures P) e holds

pub Ensures-map :
    {A : Type 0}
    → (P Q : A → Stores → Type 0) (o : Outcome A) → ((a : A) (s : Stores) → P a s → Q a s)
    → Ensures P o
    → Ensures Q o
Ensures-map P Q (done a s) f holds = f a s holds
Ensures-map P Q panicked f holds = tt
Ensures-map P Q too_deep f holds = tt

-- What is made can be remembered.
pub Ensures-made :
    {A : Type 0}
    → (P : A → Stores → Type 0) (o : Outcome A) → Ensures P o
    → Ensures (λ a s. P a s × (o ≡ done a s)) o
Ensures-made P (done a s) holds = (holds, refl)
Ensures-made P panicked holds = tt
Ensures-made P too_deep holds = tt

abbrev pub is_imported_file : Bytes → Stores → Bool
is_imported_file file s = elim (lookup file s.imports) [ none ↦ false | some u ↦ true ]

abbrev pub is_stored : Bytes → Stores → Bool
is_stored name s = elim (lookup name s.messages) [ none ↦ false | some m ↦ true ]

-- No import and no message is lost.
pub record Grows (s s' : Stores) : Type 0 where
  pub imports : (file : Bytes) → is_imported_file file s ≡ true → is_imported_file file s' ≡ true
  pub messages : (name : Bytes) → is_stored name s ≡ true → is_stored name s' ≡ true

pub Grows-refl : (s : Stores) → Grows s s
Grows-refl s = record { imports = λ file i. i; messages = λ name i. i }

pub Grows-trans : (s t u : Stores) → Grows s t → Grows t u → Grows s u
Grows-trans s t u first next = record {
  imports = λ file i. next.imports file (first.imports file i);
  messages = λ name i. next.messages name (first.messages name i);
}

pub Grows-import_file : (file : Bytes) (s : Stores) → Grows s (import_file file s)
unfolding import_file
Grows-import_file file s = record {
  imports = λ name i. ground (arith, i, lookup-insert file name tt s.imports);
  messages = λ name i. i;
}

pub is_imported_file-import_file :
    (file : Bytes) (s : Stores) → is_imported_file file (import_file file s) ≡ true
unfolding import_file
is_imported_file-import_file file s =
    ground
      (arith, lookup-insert file file tt s.imports, (bytes_eq_instance.beq_iff file file).1 refl)

pub Grows-store_message :
    (name : Bytes) (m : Message) (s : Stores) → Grows s (store_message name m s)
unfolding store_message
Grows-store_message name m s = record {
  imports = λ file i. i;
  messages = λ other i. ground (arith, i, lookup-insert name other m s.messages);
}

pub is_stored-store_message :
    (name : Bytes) (m : Message) (s : Stores) → is_stored name (store_message name m s) ≡ true
unfolding store_message
is_stored-store_message name m s =
    ground
      (arith, lookup-insert name name m s.messages, (bytes_eq_instance.beq_iff name name).1 refl)
