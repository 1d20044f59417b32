-- ===== src/Crontab/Sections.antt =====
-- app/src/main/services/CronService.ts: the sections of what the discovery command printed.
use zvia.Prelude.{
  String, Bool, true, false, not, ◌&&◌, ◌||◌, Option, none, some, List, [], ◌∷◌, ◌++◌, ◌==◌, nat_eq,
  string_eq, if◌then◌else◌, get_or, truthy, bind, contains,
}
use zvia.Prelude.Decimal.{strip_suffix}
use zvia.Prelude.Dict.{Dict, lookup, insert, has}
use zvia.Prelude.Words.{split_on, trim, join}
use zvia.Cron.Validation.{split_spaces}
use zvia.Crontab.{strip_prefix}

abbrev pub periodic_schedules : Dict String
periodic_schedules =
    ("hourly", "@hourly")
    ∷ ("daily", "@daily")
    ∷ ("weekly", "@weekly")
    ∷ ("monthly", "@monthly")
    ∷ []

-- The names that every object answers to besides its own.
abbrev inherited_names : List String
inherited_names =
    "constructor" ∷ "__proto__" ∷ "toString" ∷ "toLocaleString" ∷ "valueOf" ∷ "hasOwnProperty"
    ∷ "isPrototypeOf" ∷ "propertyIsEnumerable" ∷ "__defineGetter__" ∷ "__defineSetter__"
    ∷ "__lookupGetter__" ∷ "__lookupSetter__" ∷ []

data Section : Type 0 where
  crontab whoami user system cron_d periodic : Section

pub record PeriodicEntry : Type 0 where
  pub period : String
  pub path : String

-- `sections`, `current`, `currentFile` and `buffers`
pub record DiscoverySections : Type 0 where
  pub crontab_available : Bool
  pub username : String
  pub user_lines : List String
  pub system_lines : List String
  pub files : Dict (List String)
  pub periodic : List PeriodicEntry
  current : Option Section
  current_file : Option String

-- the section that a marker begins
section_of : String → Option Section
section_of marker =
    if marker == "---RELAY:CRONTAB---"
    then some Section.crontab
    else if marker == "---RELAY:WHOAMI---"
    then some Section.whoami
    else if marker == "---RELAY:USER---"
    then some Section.user
    else if marker == "---RELAY:SYSTEM---"
    then some Section.system
    else if marker == "---RELAY:CRON.D---"
    then some Section.cron_d
    else if marker == "---RELAY:PERIODIC---"
    then some Section.periodic
    else none

-- a text without `---` at its end, if it ends so
without_dashes : String → Option String
without_dashes s = if strip_suffix "---" s == s then none else some (strip_suffix "---" s)

file_of : String → Option String
file_of marker = bind (strip_prefix "---RELAY:FILE:" marker) without_dashes

add_file_line : Option String → String → DiscoverySections → DiscoverySections
add_file_line none line s = s
add_file_line (some file) line s = record s {
  files = insert file (get_or (lookup file s.files) [] ++ line ∷ []) s.files;
}

add_period : String → List String → DiscoverySections → DiscoverySections
add_period marker [] s = s
add_period marker (period ∷ rest) s =
    let path = join " " rest in
    if not (period == "")
      && not (path == "")
      && (has period periodic_schedules || contains period inherited_names)
    then record s { periodic = s.periodic ++ (record { period = period; path = path }) ∷ [] }
    else s

add_line : Option Section → String → String → DiscoverySections → DiscoverySections
add_line none line marker s = s
add_line (some Section.crontab) line marker s =
    if marker == "" then s else record s { crontab_available = marker == "yes" }
add_line (some Section.whoami) line marker s =
    if not (marker == "") && s.username == "" then record s { username = marker } else s
add_line (some Section.user) line marker s = record s { user_lines = s.user_lines ++ line ∷ [] }
add_line (some Section.system) line marker s = record s {
  system_lines = s.system_lines ++ line ∷ [];
}
add_line (some Section.cron_d) line marker s = add_file_line (truthy s.current_file) line s
add_line (some Section.periodic) line marker s =
    if marker == "" then s else add_period marker (split_spaces marker) s

enter : Section → DiscoverySections → DiscoverySections
enter Section.cron_d s = record s { current = some Section.cron_d; current_file = none }
enter section s = record s { current = some section }

in_cron_d : Option Section → Bool
in_cron_d (some Section.cron_d) = true
in_cron_d section = false

open_file : Option String → String → String → DiscoverySections → DiscoverySections
open_file none line marker s = add_line s.current line marker s
open_file (some file) line marker s = record s {
  current_file = some file;
  files = insert file [] s.files;
}

read_marked : Option Section → String → String → DiscoverySections → DiscoverySections
read_marked (some section) line marker s = enter section s
read_marked none line marker s =
    open_file (if in_cron_d s.current then file_of marker else none) line marker s

read_line : String → DiscoverySections → DiscoverySections
read_line raw_line s =
    let line = strip_suffix "\r" raw_line in
    let marker = trim line in read_marked (section_of marker) line marker s

read_lines : List String → DiscoverySections → DiscoverySections
read_lines [] s = s
read_lines (line ∷ rest) s = read_lines rest (read_line line s)

abbrev no_sections : DiscoverySections
no_sections = record {
  crontab_available = false;
  username = "";
  user_lines = [];
  system_lines = [];
  files = [];
  periodic = [];
  current = none;
  current_file = none;
}

pub split_sections : String → DiscoverySections
split_sections stdout = read_lines (split_on "\n" stdout) no_sections

-- the names that a run of the reading unfolds
unfoldable pub sectioning : Unit {0}
unfolding section_of without_dashes file_of add_file_line add_period add_line enter in_cron_d
    open_file read_marked read_line read_lines split_sections strip_prefix insert lookup contains
    strip_suffix
sectioning = tt
