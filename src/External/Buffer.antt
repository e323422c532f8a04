-- ===== src/External/Buffer.antt =====
-- `limitedBuffer` of internal/engine/external.go: what a command writes, up to a limit.
pub mod Content
use facts.Base.{
  ℕ, suc, ◌-◌, Bool, true, false, List, [], ◌∷◌, ◌++◌, length, take, leb, ◌==◌, if◌then◌else◌,
}
use facts.Base.Text.{Text}

-- `limitedBuffer`, with the number of calls of its `cancel`, where that is set.
pub record LimitedBuffer : Type 0 where
  pub buf : Text
  pub limit : ℕ
  pub too_large : Bool
  pub cancel : Bool
  pub cancels : ℕ

-- What `Write` returns: the number of bytes written, and whether it is `ErrExternalFactTooLarge`.
pub record Written : Type 0 where
  pub buffer : LimitedBuffer
  pub bytes : ℕ
  pub failed : Bool

-- `(*limitedBuffer).markTooLarge`
unfoldable pub mark_too_large : LimitedBuffer → LimitedBuffer
mark_too_large b = if b.too_large then b else record {
  buf = b.buf;
  limit = b.limit;
  too_large = true;
  cancel = b.cancel;
  cancels = if b.cancel then suc b.cancels else b.cancels;
}

unfoldable pub append_bytes : LimitedBuffer → Text → LimitedBuffer
append_bytes b p = record {
  buf = b.buf ++ p;
  limit = b.limit;
  too_large = b.too_large;
  cancel = b.cancel;
  cancels = b.cancels;
}

-- `(*limitedBuffer).Write`
unfoldable pub write_bytes : LimitedBuffer → Text → Written
unfolding mark_too_large append_bytes
write_bytes b p =
    let remaining = b.limit - length b.buf in
    if b.limit == 0
    then record { buffer = mark_too_large b; bytes = 0; failed = true }
    else if leb b.limit (length b.buf)
    then record { buffer = mark_too_large b; bytes = 0; failed = true }
    else if leb (length p) remaining
    then record { buffer = append_bytes b p; bytes = length p; failed = false }
    else record {
      buffer = mark_too_large (append_bytes b (take remaining p));
      bytes = remaining;
      failed = true;
    }

-- The writes of a command, in order.
unfoldable pub write_all : LimitedBuffer → List Text → LimitedBuffer
unfolding write_bytes
write_all b [] = b
write_all b (p ∷ ps) = write_all (write_bytes b p).buffer ps

-- The buffer of a stream in `runExternalFactCommand`.
unfoldable pub command_buffer : ℕ → LimitedBuffer
command_buffer limit = record {
  buf = [];
  limit = limit;
  too_large = false;
  cancel = true;
  cancels = 0;
}
