-- ===== src/Storage/Wal/Log.antt =====
-- The log on disk that a list of entries stands for: the header that `let_storage_wal_init` of
-- LetDB/src/storage/wal.c writes, and the records behind it in their order.
use let_dx.Base.{
  ℕ, ◌*◌, ◌≡◌, refl, ◌∙◌, List, [], ◌∷◌, ◌++◌, length, length-append, append_assoc, ap, sym, arith,
}
use let_dx.Base.Bytes.{le_bytes, length-le_bytes}
use let_dx.Storage.Wal.{Entry, safe_bytes, header_magic, header_version, header_length}
use let_dx.Storage.Wal.Bytes.{length-safe_bytes}

-- LET_STORAGE_WAL_HEADER_DATA
unfoldable pub header_bytes : List ℕ
header_bytes = le_bytes 8 header_magic ++ le_bytes 2 header_version

unfoldable pub log_bytes : List Entry → List ℕ
log_bytes [] = []
log_bytes (e ∷ log) = safe_bytes e ++ log_bytes log

abbrev pub log_file : List Entry → List ℕ
log_file log = header_bytes ++ log_bytes log

pub length-header_bytes : length header_bytes ≡ header_length
unfolding header_bytes
length-header_bytes = simp (length-append, length-le_bytes)

pub length-log_bytes : (log : List Entry) → length (log_bytes log) ≡ 54 * length log
unfolding log_bytes
length-log_bytes [] = refl
length-log_bytes (e ∷ log) =
    omega (
      arith,
      length-append (safe_bytes e) (log_bytes log),
      length-safe_bytes e,
      length-log_bytes log,
    )

pub log_bytes-append :
    (log more : List Entry) → log_bytes (log ++ more) ≡ log_bytes log ++ log_bytes more
unfolding log_bytes
log_bytes-append [] more = refl
log_bytes-append (e ∷ log) more =
    ap (λ t. safe_bytes e ++ t) (log_bytes-append log more)
    ∙ sym (append_assoc (safe_bytes e) (log_bytes log) (log_bytes more))
