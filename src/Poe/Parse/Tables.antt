-- ===== src/Poe/Parse/Tables.antt =====
-- The dictionaries that the two parsers build, against what each line says.
use netbuddy.Base.{
  Text, ◌≡◌, refl, Bool, List, [], ◌∷◌, Option, none, some, arith, nat_eq, list_eq, ◌==◌, sym, ◌∙◌,
  if◌then◌else◌, or_else, or_else_assoc, or_else-none, splitlines,
}
use netbuddy.Base.Dict.{lookup, lookup-insert}
use netbuddy.Poe.Port.{PoePort}
use netbuddy.Poe.Parse.{
  add_power, add_link, power_line, power_lines, parse_dell_os6_power, link_line, link_lines,
  parse_dell_os6_link,
}

-- What a line says of a port.
abbrev power_of : Text → Option PoePort → Option PoePort
power_of port none = none
power_of port (some p) = if p.port == port then some p else none

abbrev link_of : Text → Option (Text × Bool) → Option Bool
link_of port none = none
link_of port (some (name, up)) = if name == port then some up else none

-- What the last line that speaks of a port says.
abbrev pub last_power : Text → List Text → Option PoePort
last_power port [] = none
last_power port (line ∷ lines) = or_else (last_power port lines) (power_of port (power_line line))

abbrev pub last_link : Text → List Text → Option Bool
last_link port [] = none
last_link port (line ∷ lines) = or_else (last_link port lines) (link_of port (link_line line))

add_power-lookup :
    (port : Text) (reading : Option PoePort) (ports : List (Text × PoePort))
    → lookup port (add_power reading ports) ≡ or_else (power_of port reading) (lookup port ports)
add_power-lookup port none ports = refl
add_power-lookup port (some p) ports = ground (arith, lookup-insert p.port port p ports)

add_link-lookup :
    (port : Text) (reading : Option (Text × Bool)) (links : List (Text × Bool))
    → lookup port (add_link reading links) ≡ or_else (link_of port reading) (lookup port links)
add_link-lookup port none links = refl
add_link-lookup port (some (name, up)) links = ground (arith, lookup-insert name port up links)

power_lines-last :
    (port : Text) (ports : List (Text × PoePort)) (lines : List Text)
    → lookup port (power_lines ports lines) ≡ or_else (last_power port lines) (lookup port ports)
unfolding power_lines
power_lines-last port ports [] = refl
power_lines-last port ports (line ∷ lines) =
    power_lines-last port (add_power (power_line line) ports) lines
    ∙ rw (add_power-lookup port (power_line line) ports)
        (sym (or_else_assoc (last_power port lines) _ _))

link_lines-last :
    (port : Text) (links : List (Text × Bool)) (lines : List Text)
    → lookup port (link_lines links lines) ≡ or_else (last_link port lines) (lookup port links)
unfolding link_lines
link_lines-last port links [] = refl
link_lines-last port links (line ∷ lines) =
    link_lines-last port (add_link (link_line line) links) lines
    ∙ rw (add_link-lookup port (link_line line) links)
        (sym (or_else_assoc (last_link port lines) _ _))

-- For every port the parsed tables hold what the last line that names the port says of it, and
-- nothing where no line does.
pub parse-last :
    (output : Text) (port : Text)
    → (lookup port (parse_dell_os6_power output) ≡ last_power port (splitlines output))
      × (lookup port (parse_dell_os6_link output) ≡ last_link port (splitlines output))
unfolding parse_dell_os6_power parse_dell_os6_link
parse-last output port = (
  power_lines-last port [] (splitlines output) ∙ or_else-none _,
  link_lines-last port [] (splitlines output) ∙ or_else-none _,
)
