-- ===== src/Queue/Platform.antt =====
-- What the queue takes from outside its own files: the clock, `datetime`'s ISO format, the secret
-- box (queue/secretbox.py over AES-GCM), base64, the file lock and the atomic writer.
use mega_basterd_cli.Prelude.{ℕ, String, Bool, Option}

-- A parsed timestamp: microseconds, with or without a zone.
pub data IsoTime : Type 0 where
  aware naive : ℕ → IsoTime

-- What does not change from one call to the next: formats, and the secret box with its key.
pub record Formats : Type 0 where
  pub isoformat : ℕ → String
  pub fromisoformat : String → Option IsoTime
  -- `base64.b64decode(text, validate=True)` does not raise
  pub is_base64 : String → Bool
  -- `QueueSecretBox.encrypt(text, allow_create)`; `none` is QueueKeyError
  pub encrypt : String → Bool → Option String
  -- `QueueSecretBox.decrypt(token)`; `none` is any exception
  pub decrypt : String → Option String

-- What one call meets.
pub record Platform : Type 0 where
  pub formats : Formats
  pub open formats use *
  -- `FileLock.acquire` succeeds within the timeout
  pub lock_free : Bool
  -- `atomic_write_text` replaces the file; if not, it raises and the file is as it was
  pub write_succeeds : Bool
  -- `datetime.now(timezone.utc)`
  pub now : ℕ
  -- `uuid4().hex[:12]`
  pub new_id : String
  -- the backup that `preserve_corrupt_file` wrote
  pub preserve : Option String
