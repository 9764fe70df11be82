-- ===== src/Tests/Data.antt =====
-- The theorems on data at concrete inputs: a configuration with a list, a file with a section,
-- records, code pages, addresses, patterns.
use linux_sna.Base.{
  ◌↔◌, ◌+◌, ◌-◌, ◌*◌, some, List, [], ◌∷◌, ◌++◌, map, ◌≡◌, ◌≢◌, refl, arith, if◌then◌else◌, pos,
  Bytes, codes, equal,
}
use linux_sna.Buffer.{append_data, contents, init}
use linux_sna.Buffer.Contents.{IsValid, init-IsValid, append_data_lem}
use linux_sna.Config
use linux_sna.Config.{Config, Var, Value, text, items, config_string, config_list, set, promote}
use linux_sna.Config.Lookup.{set-get}
use linux_sna.Config.Promote.{promote-ends}
use linux_sna.Config.Load.{load, loaded, skip_spaces, trim_end, prefixed}
use linux_sna.Config.Load.Print.{Entry, set_all}
use linux_sna.Config.Load.Sections.{Section, set_sections, print, load-print}
use linux_sna.CharMap.{CharMap, to_remote, to_local, find}
use linux_sna.CharMap.Tables.{iso_8859_1_to_ibm273, ibm273_to_iso_8859_1}
use linux_sna.CharMap.Reversible.{shown, to_local-to_remote}
use linux_sna.Host.{address, addr1, addr2, append_block}
use linux_sna.Host.Address.{decode, decode-address}
use linux_sna.Host.Text.{printable, append_block-to_local}
use linux_sna.Wildcard.{overrun, yes, matches}
use linux_sna.Wildcard.Glob.{Matches}
use linux_sna.Wildcard.Exact.{wc_match_lem}

-- Variables, one of them a list.
abbrev vars : List Var
vars =
    record { name = codes "host"; kind = config_string; value = text (codes "a") }
    ∷ record { name = codes "servers"; kind = config_list; value = items (codes "b" ∷ []) }
    ∷ record { name = codes "p.host"; kind = config_string; value = text (codes "c") }
    ∷ []

abbrev table : Config
table = record { ref = 1; vars = vars }

set-get_example :
    (d : Config) × (set table (codes "host") config_string (text (codes "d")) ≡ some d)
    × ((other : Bytes)
        → Config.get d other ≡ (
            if equal (codes "host") other then some (text (codes "d")) else Config.get table other))
unfolding Config.get_str
set-get_example = set-get table (codes "host") (codes "d") refl

promote-ends_example : promote table (codes "p") ≢ Config.out_of_fuel
promote-ends_example = promote-ends (codes "p") table

-- A file with a variable and a section.
abbrev entries : List Entry
entries = record { name = codes "host"; value = codes "sna 1" } ∷ []

abbrev sections : List Section
sections =
    record { title = codes "tn"; entries = record { name = codes "port"; value = codes "23" } ∷ [] }
    ∷ []

abbrev first_read : Config
first_read = record {
  ref = 1;
  vars = record { name = codes "host"; kind = config_string; value = text (codes "sna 1") } ∷ [];
}

abbrev both_read : Config
both_read = record {
  ref = 1;
  vars =
      record { name = codes "host"; kind = config_string; value = text (codes "sna 1") }
      ∷ record { name = codes "tn.port"; kind = config_string; value = text (codes "23") }
      ∷ [];
}

load-print_example : load (print entries sections) Config.new ≡ loaded (pos 0) both_read
unfolding skip_spaces trim_end prefixed set_all set_sections set
load-print_example =
    load-print entries sections Config.new first_read both_read
      (
        record {
          start = (refl, refl, refl);
          chars = (
            (refl, refl, refl),
            ((refl, refl, refl), ((refl, refl, refl), ((refl, refl, refl), tt))),
          );
          one_line =
              ((refl, refl), ((refl, refl), ((refl, refl), ((refl, refl), ((refl, refl), tt)))));
          unspaced = refl;
          trimmed = refl;
          no_list = refl;
          fits = omega arith;
        },
        tt,
      )
      (
        record {
          start = (refl, refl, refl);
          chars = ((refl, refl, refl), ((refl, refl, refl), tt));
          no_brace = (refl, (refl, tt));
          entries_ok = (
            record {
              start = (refl, refl, refl);
              chars = (
                (refl, refl, refl),
                ((refl, refl, refl), ((refl, refl, refl), ((refl, refl, refl), tt))),
              );
              one_line = ((refl, refl), ((refl, refl), tt));
              unspaced = refl;
              trimmed = refl;
              no_list = refl;
              fits = omega arith;
            },
            tt,
          );
          fits = omega arith;
        },
        tt,
      )
      refl refl

append_data_lem_example :
    IsValid (append_data init (1 ∷ 2 ∷ []))
    × (contents (append_data init (1 ∷ 2 ∷ [])) ≡ contents init ++ 1 ∷ 2 ∷ [])
append_data_lem_example = append_data_lem init (1 ∷ 2 ∷ []) init-IsValid

-- The code page of Germany.
abbrev page_273 : CharMap
page_273 = record {
  name = codes "273";
  to_remote_map = iso_8859_1_to_ibm273;
  to_local_map = ibm273_to_iso_8859_1;
}

to_local-to_remote_example : to_local page_273 (to_remote page_273 65) ≡ shown 65
unfolding find
to_local-to_remote_example = to_local-to_remote (codes "273") 65 refl (omega arith)

append_block-to_local_example :
    (new : Bytes) × IsValid (append_block init (codes "Test") page_273)
    × (contents (append_block init (codes "Test") page_273) ≡ contents init ++ new)
    × (map (to_local page_273) new ≡ printable (codes "Test"))
unfolding find
append_block-to_local_example =
    append_block-to_local init (codes "Test") (codes "273") init-IsValid refl

decode-address_example : decode (addr1 (address 23 80)) (addr2 (address 23 80)) ≡ 23 * 80 + (80 - 1)
decode-address_example = decode-address 23 80 (omega arith) (omega arith)

wc_match_lem_example :
    (matches (codes "a*c") (codes "abc") ≢ overrun)
    × ((matches (codes "a*c") (codes "abc") ≡ yes) ↔ Matches (codes "a*c") (codes "abc"))
wc_match_lem_example =
    wc_match_lem (codes "a*c") (codes "abc") (refl, refl, refl, (refl, refl, refl, (refl, refl)))
