-- ===== src/Artifact/Stores.antt =====
-- artifact/store.go: the interface Store. artifact/fs_store.go: the store in a directory.
-- What the operating system may refuse is in the state: listing the directory, and writing in it.
use goutils.Common.{String, Option, none, some}
use goutils.Common.Dict
use goutils.Common.Dict.{Dict}
use goutils.Artifact.Error.{Error, Result, ok, err, not_found_hash, failure}
use goutils.Artifact.Hash.{Bytes}

-- A store over a state S. An implementation that is not code of the package, such as the client of
-- a bucket, is any value of this record.
pub record Store (S : Type 0) : Type 0 where
  -- `none` is a nil error
  pub contains : S → String → Option Error
  pub load : S → String → Result Bytes
  pub store : S → String → Bytes → Result S

pub record FsStore : Type 0 where
  pub files : Dict Bytes
  pub list_error : Option String
  pub write_error : Option String

abbrev found_or : String → Option Bytes → Option Error
found_or hash none = some (not_found_hash hash)
found_or hash (some data_) = none

-- The loop over the names in the directory finds a file of this name.
unfoldable pub contains : FsStore → String → Option Error
contains s hash = elim s.list_error [
  | some e ↦ some (failure e)
  | none ↦ found_or hash (Dict.get s.files hash)
]

abbrev opened : String → Option Bytes → Result Bytes
opened hash none = err (not_found_hash hash)
opened hash (some bytes) = ok bytes

unfoldable pub load : FsStore → String → Result Bytes
unfolding contains
load s hash = elim (contains s hash) [ some e ↦ err e | none ↦ opened hash (Dict.get s.files hash) ]

-- AtomicStore: the file appears whole, or an error leaves the store as it was.
unfoldable pub store : FsStore → String → Bytes → Result FsStore
store s hash bytes = elim s.write_error [
  | some e ↦ err (failure e)
  | none ↦ ok (record s { files = Dict.put s.files hash bytes })
]

abbrev pub fs_store : Store FsStore
fs_store = record { contains = contains; load = load; store = store }
