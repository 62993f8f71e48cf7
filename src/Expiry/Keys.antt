-- ===== src/Expiry/Keys.antt =====
-- The key of an expiry is read back as it was written.
use Prim.Native.Char.{Char}
use swiftpaste.Prelude.{ℕ, String, ◌≡◌, refl, true, some, str_append}
use swiftpaste.Prelude.Text.{decimal}
use swiftpaste.Prelude.Split.{
  Lacks, lacks, lacks-Lacks, cut_at, cut_at-append, cut_at-prefix, char-append, split_three,
}
use swiftpaste.Snippets.Delete.{expiry_key}
use swiftpaste.Snippets.ShortId.{
  base62, generate_short_id, IsDrawnFrom, count-generate_short_id, generate_short_id-Lacks,
}
use swiftpaste.Expiry.{parse_key, is_short}

prefix_cut : (rest : String) → cut_at b':' (str_append "snippet:" rest) ≡ some ("snippet", rest)
unfolding lacks
prefix_cut rest =
    cut_at-prefix b':' ":" "snippet" rest "snippet:" refl refl (lacks-Lacks b':' "snippet" refl)

pub parse_key-expiry_key :
    (short_id : String) (version : ℕ)
    → Lacks b':' short_id
    → parse_key (expiry_key short_id version) ≡ some (short_id, decimal version)
unfolding parse_key split_three
parse_key-expiry_key short_id version lacks =
    let second : cut_at b':' (str_append short_id (str_append ":" (decimal version)))
        ≡ some (short_id, decimal version) =
      rw (char-append ":" (decimal version))
        (cut_at-append b':' ":" short_id (decimal version) refl lacks) in
    rw (prefix_cut, second, parse_key, split_three) refl

-- The member of the sorted set that sharing a snippet writes is read back as its short id and version, and
-- the id is taken for a short one, for every id that `generate_short_id(8)` draws from its alphabet.
pub parse_key_of_generated :
    (choice : ℕ → Char) (version : ℕ)
    → IsDrawnFrom base62 choice
    → (parse_key (expiry_key (generate_short_id choice 8) version)
        ≡ some (generate_short_id choice 8, decimal version))
      × (is_short (generate_short_id choice 8) ≡ true)
parse_key_of_generated choice version drawn = (
  parse_key-expiry_key (generate_short_id choice 8) version
      (generate_short_id-Lacks choice 8 drawn),
  rw (count-generate_short_id choice 8) refl,
)
