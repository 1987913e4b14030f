-- ===== src/Validation/Digest.antt =====
-- The test `/^[a-f0-9]{64}$/u` for a SHA-256 digest, which several files of src/ share.
use Prim.Native.Char.{code}
use agentmixer.Prelude.{ℕ, suc, String, Bool, true, ◌&&◌, ◌||◌, leb, nat_eq}

is_hex : ℕ → Bool
is_hex c = (leb b'a' c && leb c b'f') || (leb b'0' c && leb c b'9')

all_hex : String → Bool
unfolding is_hex
all_hex String.[] = true
all_hex (String.◌∷◌ c s) = is_hex (code c) && all_hex s

count_chars : String → ℕ
count_chars String.[] = 0
count_chars (String.◌∷◌ _ s) = suc (count_chars s)

unfoldable pub matches_digest : String → Bool
unfolding all_hex count_chars
matches_digest s = all_hex s && nat_eq (count_chars s) 64
