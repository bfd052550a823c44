-- ===== src/Config/Migration.antt =====
-- The repair of old `ip = ` lines in `Config::load` of src/config.rs.
use wolf_net.Shared.{
  ℕ, zero, suc, ◌-◌, Bool, true, false, not, ◌&&◌, ◌||◌, List, [], ◌∷◌, ◌++◌, if◌then◌else◌, ◌==◌,
  nat_eq, bytes_eq, length, codes,
}
use wolf_net.Net.{Text, split}
use wolf_net.External.{External}

-- `str::starts_with`
unfoldable pub starts_with : Text → Text → Bool
unfolding nat_eq
starts_with [] s = true
starts_with (c ∷ prefix) [] = false
starts_with (c ∷ prefix) (d ∷ s) = let rest = starts_with prefix s in c == d && rest

-- `str::contains`
unfoldable pub contains_text : Text → Text → Bool
unfolding starts_with
contains_text part [] = starts_with part []
contains_text part (c ∷ s) = let rest = contains_text part s in starts_with part (c ∷ s) || rest

-- `str::replace`, past `skip` characters of the last match
unfoldable pub replace_past : ℕ → Text → Text → Text → Text
unfolding starts_with
replace_past skip from to [] = []
replace_past (suc skip) from to (c ∷ s) = replace_past skip from to s
replace_past zero from to (c ∷ s) =
    let matched = replace_past (length from - 1) from to s in
    let rest = replace_past 0 from to s in
    if starts_with from (c ∷ s) then to ++ matched else c ∷ rest

unfoldable strip_return : Text → Text
unfolding nat_eq
strip_return [] = []
strip_return (c ∷ []) = if c == 13 then [] else c ∷ []
strip_return (c ∷ d ∷ s) = c ∷ strip_return (d ∷ s)

-- All parts but the last one ended in a line feed.
unfoldable ended : List Text → List Text
unfolding strip_return bytes_eq
ended [] = []
ended (part ∷ []) = if part == [] then [] else part ∷ []
ended (part ∷ next ∷ parts) = strip_return part ∷ ended (next ∷ parts)

-- `str::lines`
unfoldable pub lines : Text → List Text
unfolding split ended
lines content = ended (split 10 content)

-- `join("\n")`
unfoldable pub join_lines : List Text → Text
join_lines [] = []
join_lines (line ∷ []) = line
join_lines (line ∷ next ∷ rest) = line ++ 10 ∷ join_lines (next ∷ rest)

abbrev pub is_old_line : External → Text → Bool
is_old_line x line =
    let trimmed = x.trim line in
    starts_with (codes "ip = ") trimmed && not (starts_with (codes "ip_") trimmed)

unfoldable pub migrate_lines : External → List Text → List Text × Bool
unfolding replace_past starts_with
migrate_lines x [] = ([], false)
migrate_lines x (line ∷ rest) =
    let (fixed, migrated) = migrate_lines x rest in
    if is_old_line x line
    then (replace_past 0 (codes "ip = ") (codes "allowed_ip = ") line ∷ fixed, true)
    else (line ∷ fixed, migrated)

-- The text that is parsed, and whether a line of it was changed.
unfoldable pub migrate : External → Text → Text × Bool
unfolding lines join_lines migrate_lines
migrate x content =
    let (fixed, migrated) = migrate_lines x (lines content) in (join_lines fixed, migrated)
