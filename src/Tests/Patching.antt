-- ===== src/Tests/Patching.antt =====
-- The handlers over the memory store.
use fileloft.Base.{
  ◌≡◌, refl, sym, subst, Bool, true, false, none, if◌then◌else◌, ◌∙◌, Text, text_eq, some, [], ◌∷◌,
  codes,
}
use fileloft.Base.Map
use fileloft.Store.{bytes}
use fileloft.Store.Contract.{Stored, IsWhole, IsDataStore}
use fileloft.Memory.Store.{memory_store}
use fileloft.Memory.Refinement.{stored, memory_store-IsDataStore}
use fileloft.Handler.Base.{Method, TusRequest}
use fileloft.Handler.Patch.{handle}
use fileloft.Handler.Patch.Atomic.{AllWhole, HandleOutcome, handle_atomic}
use fileloft.Tests.Samples.{crates, handler, ambient, half, world, headers}

abbrev pub chunk : TusRequest crates
chunk = record {
  method = Method.patch;
  upload_id = some (codes "up-1");
  headers = headers (
      (codes "Tus-Resumable", codes "1.0.0")
      ∷ (codes "Content-Type", codes "application/offset+octet-stream")
      ∷ (codes "Upload-Offset", codes "5")
      ∷ []);
  body = some (bytes (codes " world"));
}

-- The contract of the memory store.
abbrev pub contract : IsDataStore memory_store
contract = memory_store-IsDataStore.0

some-eq : (a b : Stored) → some a ≡ some b → a ≡ b
some-eq a b h = cc

stored-IsWhole : (id : Text) (e : Stored) → stored (Map.get id world.store) ≡ some e → IsWhole e
unfolding Map.get text_eq
stored-IsWhole id e found = in_entry (text_eq (codes "up-1") id) found
  where
    in_entry :
        (b : Bool)
        → stored (if b then some (record { info = half; content = codes "hello" }) else none)
          ≡ some e
        → IsWhole e
    in_entry true h = subst (IsWhole) (some-eq _ e h) refl
    in_entry false h = cc

pub world-AllWhole : AllWhole (contract.view world.store)
world-AllWhole id e found =
    stored-IsWhole id e (sym (memory_store-IsDataStore.1 world.store id) ∙ found)

handle_atomic_example :
    HandleOutcome crates handler contract ambient chunk world.store
      (handle crates handler ambient chunk world)
handle_atomic_example = handle_atomic crates handler contract ambient chunk world world-AllWhole
