-- ===== src/Net/NetCommandFactory/Laws.antt =====
-- Every message is answered by one command, accepted or refused.
use Prim.Native.String.{String}
use ts_m2cellcpp.Prelude.{
  ℕ, ◌≤◌, ◌<◌, ◌≡◌, refl, sym, ◌⊎◌, inl, inr, Bool, leb, Bool-cases, if_true, if_false, Option,
  none, some, ◌>>=◌, arith, Parsed, parsed, parse_error, too_large,
}
use ts_m2cellcpp.Control.Defs.{
  PowerSystemType, motor, comm, unknownpowersystem, int_to_power_system_type,
}
use ts_m2cellcpp.Net.Json.{Json}
use ts_m2cellcpp.Net.NetCommand.{
  CommandClass, class_ack, class_no_ack, class_echo, class_switch_command_source, class_power,
  class_system_shutdown, Members, ncmd_ack, ncmd_no_ack, ncmd_echo, ncmd_switch_command_source,
  ncmd_power, ncmd_system_shutdown, NetCommand, net_command, set_ack, ncmd_power_type, parse,
  check_parsed, or_exception, create_new_net_command,
}
use ts_m2cellcpp.Net.NetCommandFactory.{
  NetCommandFactory, find, get_command_for, get_no_ack, interpret_command, or_no_ack, create_found,
  get_parsed, get_read, made, get_for, or_default,
}

-- The command that the constructors make of an object with this id and number.
abbrev fresh : Members → String → ℕ → NetCommand
fresh m name n = record {
  name = name;
  seq_id = n;
  members = m;
  ack_json = record { id = "noack"; sequence_id = n; msg = none };
  resp_json = record { id = "fail"; sequence_id = n; msg = none };
}

-- It acts on nothing and is answered with "noack".
pub record Refused (c : NetCommand) : Type 0 where
  pub inert : c.members ≡ ncmd_no_ack
  pub answer : c.ack_json.id ≡ "noack"

pub record Made (n : ℕ) (c : NetCommand) : Type 0 where
  pub number : c.seq_id ≡ n
  pub ack_number : c.ack_json.sequence_id ≡ n
  pub outcome : (c.ack_json.id ≡ "ack") ⊎ Refused c

abbrev IfMade : ℕ → Option NetCommand → Type 0
IfMade n none = Unit
IfMade n (some c) = Made n c

refused-Made : (name : String) (n : ℕ) → Made n (fresh ncmd_no_ack name n)
refused-Made name n = record {
  number = refl;
  ack_number = refl;
  outcome = inr (record { inert = refl; answer = refl });
}

acked-Made : (m : Members) (name : String) (n : ℕ) → Made n (set_ack (fresh m name n))
unfolding set_ack
acked-Made m name n = record { number = refl; ack_number = refl; outcome = inl refl }

-- A step before it may fail.
>>=-IfMade :
    {A : Type 0} (n : ℕ) (m : Option A) (f : A → Option NetCommand)
    → ((a : A) → IfMade n (f a))
    → IfMade n (m >>= f)
>>=-IfMade n none f h = tt
>>=-IfMade n (some a) f h = h a

module _ {J : Type 0} (lib : Json J) (j : J) (name : String) (n : ℕ)
    (has_id : lib.get_string "id" j ≡ some name)
    (has_number : lib.get_uint "sequence_id" j ≡ some n) where
  net_command_lem : (m : Members) → net_command lib m j ≡ some (fresh m name n)
  unfolding net_command
  net_command_lem m = rw (has_id, has_number)

  acknowledged : (m : Members) → IfMade n (net_command lib m j >>= λ c. some (set_ack c))
  acknowledged m = rw (net_command_lem m) (acked-Made m name n)

  power-IfMade : (t : PowerSystemType) (x : Bool) → IfMade n (ncmd_power_type lib t x j)
  unfolding ncmd_power_type
  power-IfMade motor x = acknowledged (ncmd_power motor x)
  power-IfMade comm x = acknowledged (ncmd_power comm x)
  power-IfMade unknownpowersystem x = tt

  create-IfMade : (c : CommandClass) → IfMade n (create_new_net_command lib c j)
  unfolding create_new_net_command
  create-IfMade class_ack = acknowledged ncmd_ack
  create-IfMade class_no_ack = rw (net_command_lem ncmd_no_ack) (refused-Made name n)
  create-IfMade class_echo =
      >>=-IfMade n (lib.get_string "msg" j) _ λ msg. acknowledged (ncmd_echo msg)
  create-IfMade class_switch_command_source =
      >>=-IfMade n (lib.get_bool "isRemote" j) _ λ b. acknowledged (ncmd_switch_command_source b)
  create-IfMade class_power = >>=-IfMade n (lib.get_int "powerType" j) _ λ t.
      (>>=-IfMade n (lib.get_bool "status" j) _ λ x. power-IfMade (int_to_power_system_type t) x)
  create-IfMade class_system_shutdown = acknowledged ncmd_system_shutdown

  no_ack_lem : create_new_net_command lib class_no_ack j ≡ some (fresh ncmd_no_ack name n)
  unfolding create_new_net_command
  no_ack_lem = net_command_lem ncmd_no_ack

-- The message had a number above every one before it.
pub record Accepted (f : NetCommandFactory) (g : NetCommandFactory) (c : NetCommand) : Type 0 where
  pub acked : c.ack_json.id ≡ "ack"
  pub newer : f.prev_seq_id < c.ack_json.sequence_id
  pub latest : g.prev_seq_id ≡ c.ack_json.sequence_id

pub record Served (f : NetCommandFactory) (p : NetCommandFactory × Option NetCommand) : Type 0 where
  pub command : NetCommand
  pub created : p.1 ≡ some command
  pub ordered : f.prev_seq_id ≤ p.0.prev_seq_id
  pub same_map : p.0.cmd_map ≡ f.cmd_map
  pub outcome : Accepted f p.0 command ⊎ Refused command

Served-refused :
    (f g : NetCommandFactory) (name : String) (n : ℕ)
    → f.prev_seq_id ≤ g.prev_seq_id
    → g.cmd_map ≡ f.cmd_map
    → Served f (g, some (fresh ncmd_no_ack name n))
Served-refused f g name n h e = record {
  command = fresh ncmd_no_ack name n;
  created = refl;
  ordered = h;
  same_map = e;
  outcome = inr (record { inert = refl; answer = refl });
}

Made-outcome :
    (f : NetCommandFactory) (n : ℕ) (c : NetCommand)
    → f.prev_seq_id < n
    → Made n c
    → Accepted f (record f { prev_seq_id = n }) c ⊎ Refused c
Made-outcome f n c h m = elim m.outcome [
  | inl e ↦
      inl (record { acked = e; newer = ground (arith, h, m.ack_number); latest = sym m.ack_number })
  | inr r ↦ inr r
]

Served-Made :
    (f : NetCommandFactory) (n : ℕ) (c : NetCommand)
    → f.prev_seq_id < n
    → Made n c
    → Served f (record f { prev_seq_id = n }, some c)
Served-Made f n c h m = record {
  command = c;
  created = refl;
  ordered = ground (arith, h);
  same_map = refl;
  outcome = Made-outcome f n c h m;
}

module _ {J : Type 0} (lib : Json J) where
  abbrev answered : NetCommandFactory × Option NetCommand → NetCommandFactory × Option NetCommand
  answered r = or_default lib (made r)

  get_no_ack-Served : (f : NetCommandFactory) → Served f (or_default lib (f, parse_error))
  unfolding or_default get_no_ack
  get_no_ack-Served f =
      rw
        (no_ack_lem lib (lib.object "noack" 0) "noack" 0 (lib.get_string-object "noack" 0)
          (lib.get_uint-object "noack" 0))
        (Served-refused f f "noack" 0 (ground arith) refl)

  module _ (j : J) (name : String) (n : ℕ) (has_id : lib.get_string "id" j ≡ some name)
      (has_number : lib.get_uint "sequence_id" j ≡ some n) where
    or_no_ack-Served :
        (f : NetCommandFactory) (c : Option NetCommand)
        → f.prev_seq_id < n
        → IfMade n c
        → Served f (answered (record f { prev_seq_id = n }, or_no_ack lib j c))
    unfolding or_default or_no_ack
    or_no_ack-Served f (some c) h m = Served-Made f n c h m
    or_no_ack-Served f none h m =
        rw (no_ack_lem lib j name n has_id has_number)
          (Served-refused f (record f { prev_seq_id = n }) name n (ground (arith, h)) refl)

    create_found-Served :
        (f : NetCommandFactory) (c : Option CommandClass)
        → f.prev_seq_id < n
        → Served f (answered (record f { prev_seq_id = n }, create_found lib j c))
    unfolding create_found or_no_ack
    create_found-Served f (some c) h =
        or_no_ack-Served f (create_new_net_command lib c j) h
          (create-IfMade lib j name n has_id has_number c)
    create_found-Served f none h = or_no_ack-Served f none h tt

    repeated-Served :
        (f : NetCommandFactory) → Served f (answered (f, create_new_net_command lib class_no_ack j))
    unfolding or_default
    repeated-Served f =
        rw (no_ack_lem lib j name n has_id has_number)
          (Served-refused f f name n (ground arith) refl)

    get_parsed-Served : (f : NetCommandFactory) → Served f (answered (get_parsed lib j name n f))
    unfolding get_parsed
    get_parsed-Served f = elim (Bool-cases (leb n f.prev_seq_id)) [
      | inl e ↦ if_true (λ r. Served f (answered r)) (leb n f.prev_seq_id) _ _ e (repeated-Served f)
      | inr e ↦
          if_false (λ r. Served f (answered r)) (leb n f.prev_seq_id) _ _ e
            (create_found-Served f (find name f.cmd_map) (ground (arith, e)))
    ]

  get_read-Served :
      (j : J) (a : Option String) (b : Option ℕ) (f : NetCommandFactory)
      → lib.get_string "id" j ≡ a
      → lib.get_uint "sequence_id" j ≡ b
      → Served f (answered (get_read lib j a b f))
  unfolding get_read
  get_read-Served j (some a) (some b) f h k = get_parsed-Served j a b h k f
  get_read-Served j (some a) none f h k = get_no_ack-Served f
  get_read-Served j none b f h k = get_no_ack-Served f

  -- An exception leaves the handler, for a number in the text that no double holds.
  abbrev pub Escapes : String → NetCommandFactory → NetCommandFactory × Option NetCommand → Type 0
  Escapes text f p = (lib.parse text ≡ too_large) × (p ≡ (f, none))

  checked-Served :
      (o : Option J) (f : NetCommandFactory)
      → Served f (or_default lib (get_for lib (or_exception lib o) f))
  unfolding get_for or_exception
  checked-Served none f = get_no_ack-Served f
  checked-Served (some j) f = get_read-Served j _ _ f refl refl

  check_parsed-Served :
      (text : String) (p : Parsed J) (f : NetCommandFactory)
      → lib.parse text ≡ p
      → let r = or_default lib (get_for lib (check_parsed lib p) f) in Escapes text f r ⊎ Served f r
  unfolding get_for check_parsed or_default
  check_parsed-Served text parse_error f e = inr (get_no_ack-Served f)
  check_parsed-Served text too_large f e = inl (e, refl)
  check_parsed-Served text (parsed j) f e = inr (checked-Served _ f)

  -- Every text, JSON or not, is answered by a command: it is accepted and its number is above every
  -- one before, or it is refused with "noack" and acts on nothing; but for a text with a number that
  -- no double holds, an exception leaves the handler and the factory is as before.
  pub interpret_command-Served :
      (text : String) (f : NetCommandFactory)
      → let r = interpret_command lib text f in Escapes text f r ⊎ Served f r
  unfolding interpret_command get_command_for parse
  interpret_command-Served text f = check_parsed-Served text (lib.parse text) f refl
