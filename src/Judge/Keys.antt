-- ===== src/Judge/Keys.antt =====
-- src/judge.ts: the key of a judge, from the environment or from the file of the private state root.
-- A key that is stored is text: one that is given as bytes has been decoded. A stat, a read or a write
-- of a file that is open does not fail.
use Prim.Native.Char.{code}
use agentmixer.Prelude.{
  ℕ, ◌+◌, ◌%◌, String, Bool, true, false, not, ◌&&◌, ◌||◌, Option, none, some, List, [], ◌∷◌, leb,
  nat_eq, if◌then◌else◌,
}
use agentmixer.Prelude.Result.{Result, ok, err, require, ◌>>=◌, ◌>>◌}
use agentmixer.Validation.{byte_length, is_alphanumeric, is_blank, is_space}

unfoldable pub trim_end : String → String
trim_end String.[] = String.[]
trim_end (String.◌∷◌ c s) =
    if is_blank (String.◌∷◌ c s) then String.[] else String.◌∷◌ c (trim_end s)

-- `String.prototype.trim`
unfoldable pub trim : String → String
unfolding trim_end
trim String.[] = String.[]
trim (String.◌∷◌ c s) = if is_space (code c) then trim s else trim_end (String.◌∷◌ c s)

abbrev pub is_token_code : ℕ → Bool
is_token_code c =
    is_alphanumeric c
    || nat_eq c b'_'
    || nat_eq c b'-'
    || nat_eq c b'.'
    || nat_eq c b'='
    || nat_eq c b'+'

-- `[A-Za-z0-9_\-.=+]*`
unfoldable pub are_token_codes : String → Bool
are_token_codes String.[] = true
are_token_codes (String.◌∷◌ c s) = is_token_code (code c) && are_token_codes s

-- `validJudgeToken`: the bytes of such a text are its code units
unfoldable pub valid_token : String → Bool
unfolding are_token_codes
valid_token token =
    leb 1 (byte_length token) && leb (byte_length token) 512 && are_token_codes token

-- `JudgeKeySource`
pub data Source : Type 0 where
  env vault : Source

pub record Key : Type 0 where
  pub token : String
  pub source : Source

pub record Root : Type 0 where
  -- is the path its own real path?
  pub is_actual : Bool
  pub is_directory : Bool
  pub is_link : Bool
  pub is_owned : Bool
  pub mode : ℕ
  -- can a file be created in it?
  pub is_writable : Bool

pub record Stat : Type 0 where
  pub is_file : Bool
  pub is_owned : Bool
  pub links : ℕ
  pub mode : ℕ
  pub size : ℕ
  pub ino : ℕ
  pub modified : ℕ
  pub changed : ℕ

-- a file that can be opened: its stat before and after the reads, the bytes of each read, and the text
-- of all of them, if they are UTF-8
pub record File : Type 0 where
  pub before : Stat
  pub reads : List ℕ
  pub after : Stat
  pub text : Option String

pub data Entry : Type 0 where
  absent : Entry
  refused : (is_file : Bool) → Entry
  present : File → Entry

-- the private state root, if it exists, and what it has under the name of the key's file
pub record Vault : Type 0 where
  pub root : Option Root
  pub entry : Entry

abbrev is_private : Root → Bool
is_private root =
    root.is_actual
    && root.is_directory
    && not root.is_link
    && root.is_owned
    && nat_eq (root.mode % 0o100) 0

-- `privateRoot`
unfoldable pub private_root : Option Root → Result Root
private_root none = err "ENOENT"
private_root (some root) = do require (is_private root) "XCB_DIRECTORY_NOT_PRIVATE"; ok root

abbrev pub max_token_bytes : ℕ
max_token_bytes = 2048

-- the loop over the reads, into a buffer of `max_token_bytes + 1`
unfoldable pub read_size : ℕ → List ℕ → ℕ
read_size size [] = size
read_size size (bytes ∷ reads) =
    let rest = read_size (size + bytes) reads in
    if leb size max_token_bytes && not (nat_eq bytes 0) then rest else size

abbrev pub is_safe : Stat → Bool
is_safe stat =
    stat.is_file
    && stat.is_owned
    && nat_eq stat.links 1
    && nat_eq (stat.mode % 0o200) 0
    && leb stat.size max_token_bytes

abbrev pub is_unchanged : ℕ → Stat → Stat → Bool
is_unchanged size before after =
    leb 1 size
    && leb size max_token_bytes
    && nat_eq size before.size
    && nat_eq after.ino before.ino
    && nat_eq after.size before.size
    && nat_eq after.modified before.modified
    && nat_eq after.changed before.changed

abbrev decoded : Option String → Result String
decoded none = err "TypeError"
decoded (some text) = ok (trim text)

abbrev read_file : File → Result String
read_file file = do
  require (is_safe file.before) "JUDGE_KEY_UNAVAILABLE"
  require (is_unchanged (read_size 0 file.reads) file.before file.after) "JUDGE_KEY_UNAVAILABLE"
  token ← decoded file.text
  require (valid_token token) "JUDGE_KEY_UNAVAILABLE"
  ok token

abbrev pub read_entry : Entry → Result (Option String)
read_entry absent = ok none
read_entry (refused is_file) = err "JUDGE_KEY_UNAVAILABLE"
read_entry (present file) = do token ← read_file file; ok (some token)

-- `vaultKey`
unfoldable pub vault_key : Vault → Result (Option String)
unfolding private_root read_size valid_token trim
vault_key v = do private_root v.root; read_entry v.entry

-- a file of mode 0o600 that holds a text
abbrev pub new_stat : (size ino now : ℕ) → Stat
new_stat size ino now = record {
  is_file = true;
  is_owned = true;
  links = 1;
  mode = 0o600;
  size = size;
  ino = ino;
  modified = now;
  changed = now;
}

abbrev pub new_file : (text : String) (ino now : ℕ) → File
new_file text ino now = record {
  before = new_stat (byte_length text) ino now;
  reads = byte_length text ∷ [];
  after = new_stat (byte_length text) ino now;
  text = some text;
}

abbrev pub is_absent : Entry → Bool
is_absent absent = true
is_absent _ = false

-- `storeJudgeKey`; the file system gives the new file its number and its time
unfoldable pub store_key : (key : String) (ino now : ℕ) → Vault → Result Vault
unfolding valid_token private_root trim
store_key key ino now v = do
  let token = trim key
  require (valid_token token) "JUDGE_KEY_INVALID"
  root ← private_root v.root
  require (is_absent v.entry) "JUDGE_KEY_EXISTS"
  require root.is_writable "JUDGE_KEY_UNAVAILABLE"
  ok (record v { entry = present (new_file token ino now) })

abbrev pub entry_is_file : Entry → Bool
entry_is_file absent = false
entry_is_file (refused is_file) = is_file
entry_is_file (present file) = file.before.is_file

-- `removeJudgeKey`
unfoldable pub remove_key : Vault → Result (Bool × Vault)
unfolding private_root
remove_key v = do
  private_root v.root
  if entry_is_file v.entry then ok (true, record v { entry = absent }) else ok (false, v)

-- `hasJudgeKey`
unfoldable pub has_key : Vault → Bool
unfolding private_root
has_key v = elim (private_root v.root) [ ok root ↦ entry_is_file v.entry | err e ↦ false ]

abbrev key_env : String
key_env = "XCB_JEV_API_KEY"

abbrev vendor_key_env : String
vendor_key_env = "TYPESAFE_API_KEY"

abbrev usable : Option String → Option String
usable none = none
usable (some value) = if valid_token (trim value) then some (trim value) else none

-- the key of the environment: the first of the two names that holds a token
unfoldable pub env_key : (String → Option String) → Option String
unfolding valid_token trim
env_key lookup = elim (usable (lookup key_env)) [
  | some token ↦ some token
  | none ↦ usable (lookup vendor_key_env)
]

abbrev pub vault_source : Option String → Option Key
vault_source none = none
vault_source (some token) = some (record { token = token; source = vault })

-- `resolveJudgeKey`
unfoldable pub resolve_key : Vault → (String → Option String) → Result (Option Key)
unfolding vault_key env_key
resolve_key v lookup = elim (env_key lookup) [
  | some token ↦ ok (some (record { token = token; source = env }))
  | none ↦ (do token ← vault_key v; ok (vault_source token))
]
