-- ===== src/Memory/Scan.antt =====
-- NEO6502_MMU_V3/memory_config.cpp: reading lines and values of /memory.ini.
use neo6502_mmu_v.Base.{
  ℕ, zero, suc, Bool, true, false, not, ◌&&◌, ◌||◌, Option, none, some, List, [], ◌∷◌, take, length,
  ltb, ◌==◌, if◌then◌else◌,
}
use neo6502_mmu_v.Base.Strings.{codes, str_eq, c_string, strip_front, strip_end, tokens, strtol}
use neo6502_mmu_v.Memory.Config.{max_memory_contexts, copy_trunc}

-- `parseBoolValue`
unfoldable pub parse_bool_value : List ℕ → Option Bool
parse_bool_value s =
    if str_eq s (codes "true")
    then some true
    else if str_eq s (codes "false")
    then some false
    else none

-- `parseU8Strict`
unfoldable pub parse_u8_strict : List ℕ → Option ℕ
parse_u8_strict s = elim (strtol s) [
  | none ↦ none
  | some (negative, v, end) ↦
      if not (length end == 0)
      then none
      else if negative && not (v == 0)
      then none
      else if ltb 255 v
      then none
      else some v
]

-- `parseContextIdStrict`
unfoldable pub parse_context_id_strict : List ℕ → Option ℕ
parse_context_id_strict s = elim (parse_u8_strict s) [
  | none ↦ none
  | some v ↦ if ltb v max_memory_contexts then some v else none
]

-- `file.readBytesUntil('\n', line, 159)`: at most `left` bytes, up to a newline, which is taken and
-- not stored.
unfoldable pub read_bytes_until : ℕ → List ℕ → List ℕ × List ℕ
read_bytes_until zero file = ([], file)
read_bytes_until (suc left) [] = ([], [])
read_bytes_until (suc left) (c ∷ cs) =
    let (line, rest) = read_bytes_until left cs in if c == b'\n' then ([], cs) else (c ∷ line, rest)

abbrev is_line_end : ℕ → Bool
is_line_end c = c == b'\r' || c == b'\n'

-- The line as the C string that is left without `\r` and `\n` at its end.
unfoldable pub line_text : List ℕ → List ℕ
line_text raw = c_string (strip_end is_line_end raw)

abbrev is_blank : ℕ → Bool
is_blank c = c == b' ' || c == b'\t'

-- A key or a value without the blanks round it.
unfoldable pub trim : List ℕ → List ℕ
trim s = strip_end is_blank (strip_front is_blank s)

-- The first `count` tokens of `section`, cut to `temp[64]`; `none` if there are fewer.
unfoldable pub section_parts : ℕ → List ℕ → Option (List (List ℕ))
section_parts count section =
    let parts = take count (tokens b'.' (copy_trunc 64 section)) in
    if length parts == count then some parts else none
