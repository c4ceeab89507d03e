-- ===== src/Transcript/Remote.antt =====
-- packages/core/src/sentinel_core/transcript/store.py: `S3TranscriptStore`. The client of boto3 is a
-- parameter, and so is the hash.
use security_tool.Prelude.{
  nat_beq, List, [], ◌∷◌, ◌++◌, take, Text, codes, strip_right, Outcome, ok, ◌≡◌, ◌≢◌,
}
use security_tool.Transcript.Store.{Content}

-- The objects behind a client. `get_object` gives the bytes of the body, or what the client raises.
pub record Client : Type 1 where
  pub State : Type 0
  pub put_object : Text → Text → Content → Text → State → State
  pub get_object : Text → Text → State → Outcome Text Content

-- What is documented: an object replaces the one of its key in its bucket, and no other.
pub record IsObjectStore (c : Client) : Type 0 where
  pub get-put_same :
      (bucket key : Text) (body : Content) (content_type : Text) (s : c.State)
      → c.get_object bucket key (c.put_object bucket key body content_type s) ≡ ok body
  pub get-put_other :
      (bucket key other : Text) (body : Content) (content_type : Text) (s : c.State)
      → key ≢ other
      → c.get_object bucket other (c.put_object bucket key body content_type s)
        ≡ c.get_object bucket other s

pub record S3TranscriptStore : Type 0 where
  pub bucket : Text
  pub prefix : Text

-- `__init__`: prefix.rstrip("/")
unfoldable pub new_store : Text → Text → S3TranscriptStore
unfolding strip_right
new_store bucket prefix = record {
  bucket = bucket;
  prefix = strip_right (λ c. nat_beq c b'/') prefix;
}

-- `_key_for`
unfoldable pub key_for : S3TranscriptStore → Text → Text
key_for store id = store.prefix ++ (codes "/" ++ (take 2 id ++ (codes "/" ++ (id ++ codes ".bin"))))

module _ (c : Client) (content_id : Content → Text) (store : S3TranscriptStore) where
  -- `put`: the objects, and the identifier.
  unfoldable pub upload : Content → Text → c.State → c.State × Text
  unfolding key_for
  upload content content_type s =
      let id = content_id content in
      (c.put_object store.bucket (key_for store id) content content_type s, id)

  -- `get`
  unfoldable pub download : Text → c.State → Outcome Text Content
  unfolding key_for
  download id s = c.get_object store.bucket (key_for store id) s

  unfoldable pub upload_all : List Content → c.State → c.State
  unfolding upload
  upload_all [] s = s
  upload_all (x ∷ xs) s = upload_all xs (upload x (codes "application/json") s).0
