-- ===== src/Query.antt =====
-- src/include/query.h: the options of a query and its three output buffers.
use gnugol.Base.{ℕ, Bool, false, Option, none, ℤ, pos, Bytes, []}

-- `enum gnugol_formatter`
pub data Formatter : Type 0 where
  format_none format_raw format_term format_text format_html format_html5 format_elinks format_wiki
        format_iki format_org format_ssml format_json format_xml format_mdwn format_csv format_sql
        format_textile format_man format_dns format_info format_lisp :
      Formatter

-- `buffer_obj_t`. `s` is `NULL`, or what the buffer reads as.
pub record Buffer : Type 0 where
  pub size : ℕ
  pub len : ℕ
  pub s : Option Bytes

-- `struct query_options`, less what no modelled code reads. A field of one bit is a `Bool`, a
-- pointer to a string is `none` where it is `NULL`.
pub record QueryOptions : Type 0 where
  pub urls : Bool
  pub ads : Bool
  pub misc : Bool
  pub reg : Bool
  pub reverse : Bool
  pub broadcast : Bool
  pub multicast : Bool
  pub force : Bool
  pub secure : Bool
  pub offline : Bool
  pub page : Bool
  pub prime : Bool
  pub cache : Bool
  pub engine : Bool
  pub mirror : Bool
  pub input : Bool
  pub plugin : Bool
  pub output : Bool
  pub blind : Bool
  pub verbose : Bool
  pub ipv4 : Bool
  pub ipv6 : Bool
  pub trust : Bool
  pub dontfork : Bool
  pub footer : Bool
  pub header : Bool
  pub about : Bool
  pub url_escape : Bool
  pub break_words : Bool
  pub snippets : ℤ
  pub titles : ℤ
  pub desc : ℤ
  pub indent : ℤ
  pub debug : ℤ
  pub nresults : ℤ
  pub position : ℤ
  pub safe : ℤ
  pub format : Formatter
  pub returned_results : ℕ
  pub header_str : Option Bytes
  pub footer_str : Option Bytes
  pub license_str : Option Bytes
  pub engine_name : Option Bytes
  pub output_file : Option Bytes
  pub input_file : Option Bytes
  pub plugin_file : Option Bytes
  pub server : Option Bytes
  pub client : Option Bytes
  pub charset : Option Bytes
  pub out : Buffer
  pub err : Buffer
  pub wrn : Buffer
  pub input_language : Bytes
  pub output_language : Bytes
  pub querystr : Bytes
  pub keywords : Bytes

abbrev no_buffer : Buffer
no_buffer = record { size = 0; len = 0; s = none }

-- What `memset(q,0,sizeof(QueryOptions_t))` leaves.
unfoldable pub zeroed : QueryOptions
zeroed = record {
  urls = false;
  ads = false;
  misc = false;
  reg = false;
  reverse = false;
  broadcast = false;
  multicast = false;
  force = false;
  secure = false;
  offline = false;
  page = false;
  prime = false;
  cache = false;
  engine = false;
  mirror = false;
  input = false;
  plugin = false;
  output = false;
  blind = false;
  verbose = false;
  ipv4 = false;
  ipv6 = false;
  trust = false;
  dontfork = false;
  footer = false;
  header = false;
  about = false;
  url_escape = false;
  break_words = false;
  snippets = pos 0;
  titles = pos 0;
  desc = pos 0;
  indent = pos 0;
  debug = pos 0;
  nresults = pos 0;
  position = pos 0;
  safe = pos 0;
  format = format_none;
  returned_results = 0;
  header_str = none;
  footer_str = none;
  license_str = none;
  engine_name = none;
  output_file = none;
  input_file = none;
  plugin_file = none;
  server = none;
  client = none;
  charset = none;
  out = no_buffer;
  err = no_buffer;
  wrn = no_buffer;
  input_language = [];
  output_language = [];
  querystr = [];
  keywords = [];
}
