-- ===== src/Server/Options.antt =====
-- `server_process_options` of src/gnugold/server/server_options.c and the options of the server, of
-- src/gnugold/oldinclude/server.h.
pub mod Setting
pub mod Results
pub mod Sources
pub mod Modes
pub mod Settings
use gnugol.Base.{
  ℕ, Bool, true, false, not, ◌||◌, Option, none, some, List, [], ◌∷◌, ◌==◌, if◌then◌else◌,
}

-- `struct server_options`, less the fields that nothing reads or sets. A field of one bit is a
-- `Bool`.
pub record ServerOptions : Type 0 where
  pub urls : Bool
  pub snippets : Bool
  pub ads : Bool
  pub titles : Bool
  pub misc : Bool
  pub reg : Bool
  pub reverse : Bool
  pub broadcast : Bool
  pub multicast : Bool
  pub force : Bool
  pub secure : Bool
  pub ssml : Bool
  pub xml : Bool
  pub html : Bool
  pub json : Bool
  pub offline : Bool
  pub lucky : Bool
  pub prime : Bool
  pub cache : Bool
  pub engine : Bool
  pub mirror : Bool
  pub input : Bool
  pub plugin : Bool
  pub output : Bool
  pub blind : Bool
  pub verbose : Bool
  pub debug : Bool
  pub dummy : Bool
  pub ipv4 : Bool
  pub ipv6 : Bool
  pub trust : Bool
  pub dontfork : Bool
  pub reverselookup : Bool
  pub longhelp : Bool
  pub help : Bool

-- What `calloc` leaves.
abbrev pub no_options : ServerOptions
no_options = record {
  urls = false;
  snippets = false;
  ads = false;
  titles = false;
  misc = false;
  reg = false;
  reverse = false;
  broadcast = false;
  multicast = false;
  force = false;
  secure = false;
  ssml = false;
  xml = false;
  html = false;
  json = false;
  offline = false;
  lucky = false;
  prime = false;
  cache = false;
  engine = false;
  mirror = false;
  input = false;
  plugin = false;
  output = false;
  blind = false;
  verbose = false;
  debug = false;
  dummy = false;
  ipv4 = false;
  ipv6 = false;
  trust = false;
  dontfork = false;
  reverselookup = false;
  longhelp = false;
  help = false;
}

-- The switch over what `getopt_long` returns.
unfoldable pub set_option : ℕ → ServerOptions → ServerOptions
set_option opt o =
    if opt == b'u'
    then record o { urls = true }
    else if opt == b's'
    then record o { snippets = true }
    else if opt == b'a'
    then record o { ads = true }
    else if opt == b'j'
    then record o { json = true }
    else if opt == b't'
    then record o { titles = true }
    else if opt == b'e'
    then record o { engine = true }
    else if opt == b'R'
    then record o { reg = true }
    else if opt == b'i'
    then record o { input = true }
    else if opt == b'P'
    then record o { prime = true }
    else if opt == b'p'
    then record o { plugin = true }
    else if opt == b'l'
    then record o { lucky = true }
    else if opt == b'm'
    then record o { multicast = true }
    else if opt == b'b'
    then record o { broadcast = true }
    else if opt == b'c'
    then record o { cache = true }
    else if opt == b'o'
    then record o { output = true }
    else if opt == b'O'
    then record o { offline = true }
    else if opt == b'f'
    then record o { force = true }
    else if opt == b'S'
    then record o { secure = true }
    else if opt == b'H'
    then record o { html = true }
    else if opt == b'X'
    then record o { xml = true }
    else if opt == b'h'
    then record o { help = true }
    else if opt == b'L'
    then record o { longhelp = true }
    else if opt == b'v'
    then record o { verbose = true }
    else if opt == b'T'
    then record o { trust = true }
    else if opt == b'd'
    then record o { debug = true }
    else if opt == b'D'
    then record o { dummy = true }
    else if opt == b'F'
    then record o { dontfork = true }
    else if opt == b'r'
    then record o { reverselookup = true }
    else o

-- The loop, over what `getopt_long` returns until it is -1.
unfoldable pub set_options : List ℕ → ServerOptions → ServerOptions
set_options [] o = o
set_options (opt ∷ opts) o = set_options opts (set_option opt o)

-- The options that are left, or `none` where `usage` exits.
unfoldable pub server_process_options : List ℕ → ServerOptions → Option ServerOptions
server_process_options opts o =
    let set = set_options opts o in if set.help || set.longhelp then none else some set
