-- ===== src/Search/Credits/Rows.antt =====
-- The tables of src/engines/credits.c, without the rows that end them.
use gnugol.Base.{List, [], ◌∷◌, ◌++◌, Bytes, codes}

-- `struct credits`
pub record Credit : Type 0 where
  pub catagory : Bytes
  pub name : Bytes
  pub url : Bytes
  pub desc : Bytes

-- `struct cat_map`
pub record Category : Type 0 where
  pub catagory : Bytes
  pub desc : Bytes

abbrev credit : Bytes → Bytes → Bytes → Bytes → Credit
credit catagory name url desc = record { catagory = catagory; name = name; url = url; desc = desc }

-- `c`
unfoldable pub credits : List Credit
credits =
    credit (codes "credits") (codes "Dave T" ++ (0xC3 ∷ 0xA4 ∷ []) ++ codes "ht")
      (codes "http://www.taht.net/") (codes "Inspiration... and perspiration")
    ∷ credit (codes "credits") (codes "Craig Guessford") (codes "http://www.aftertheflood.com/")
        (codes "Gnugol logo and related art")
    ∷ credit (codes "credits") (codes "Sean Conner") (codes "http://boston.conman.org/")
        (codes "DLLs, UTF-8 improvements, cleanups, bug fixes")
    ∷ credit (codes "credits") (codes "Brian Clapper") (codes "http://www.clapper.org/bmc/")
        (codes "OSX, textile, mdwn support")
    ∷ credit (codes "credits") (codes "David Rowe") (codes "http://www.rowetel.com/")
        (codes "Original scraper/fpipe code, moral support")
    ∷ credit (codes "credits") (codes "Nick Mainsbridge") (codes "http://deprogram.net/")
        (codes "The name, 'gnugol', and the backing music")
    ∷ credit (codes "copyright") (codes "&copy; 2010,2011 Sean Conner")
        (codes "http://boston.conman.org/") (codes "Portions contributed by Sean Conner")
    ∷ credit (codes "copyright")
        ((0xC2 ∷ 0xA9 ∷ []) ++ codes " 2010,2011 Michael D. T" ++ (0xC3 ∷ 0xA4 ∷ []) ++ codes "ht")
        (codes "http://www.taht.net/")
        (codes "The bulk of gnugol is under the AGPLv3. See --about license for more details")
    ∷ credit (codes "license") (codes "Gnugol's Licensing") (codes "http://gnugol.taht.net/") []
    ∷ credit (codes "license") (codes "GNU Affero General Public License, Version 3")
        (codes "http://www.gnu.org/licenses/agpl.html")
        (codes
          "The GNU Affero General Public License is a free, copyleft license for software and other kinds of works, specifically designed to ensure cooperation with the community in the case of network server software.\n\nThe GNU Affero General Public License is designed specifically to ensure that the modified source code becomes available to the community. It requires the operator of a network server to provide the source code of the modified version running there to the users of that server. Therefore, public use of a modified version, on a publicly accessible server, gives the public access to the source code of the modified version.\n\n (For the complete license, visit the web site)\n\n")
    ∷ credit (codes "license") (codes "GNU General Public License")
        (codes "http://www.gnu.org/licenses/gpl.html") []
    ∷ credit (codes "license") (codes "GNU General Lesser General Public License")
        (codes "http://www.gnu.org/licenses/lgpl.html") []
    ∷ credit (codes "license") (codes "Free Beer License")
        (codes "http://en.wikipedia.org/wiki/Beerware") []
    ∷ credit (codes "source") (codes "Gnugol Source Code via git")
        (codes "https://github.com/dtaht/Gnugol.git") []
    ∷ credit (codes "source") (codes "Mirror sites") (codes "http://gnugol.taht.net/")
        (codes "The main site has a list of mirrors")
    ∷ credit (codes "config") (codes "Gnugol Configuration")
        (codes "https://github.com/dtaht/Gnugol.git")
        (codes
          "At present gnugol can only be configured via command line options. There will be a ~/.gnugol/config someday, in json format. ")
    ∷ credit (codes "manual") (codes "Gnugol Manual") (codes "http://gnugol.taht.net/")
        (codes "Sorry, no manual yet. See the web site for some tips or try --help")
    ∷ credit (codes "keys") (codes "Gnugol API Key") (codes "http://gnugol.taht.net/") (
        codes
          "No license key for gnugol is (or will ever be) required. That said, certain other services do require a license key, and I'd like to be able to search those, so I have made allowances for search engines that require one.")
    ∷ credit (codes "keys") (codes "Google API Key")
        (codes "http://code.google.com/apis/ajaxsearch/documentation/reference.html")
        (codes
          "A key is not required, but desirable. If you get/have one, put it in ~/.googlekey to use.")
    ∷ credit (codes "keys") (codes "Bing API Key")
        (codes "http://www.bing.com/developers/createapp.aspx")
        (codes "Get a bing key from this url and put it in a file called ~/.bingkey.")
    ∷ credit (codes "keys") (codes "Wikipedia") (codes "http://gnugol.taht.net/") (
        codes
          "No json API key is required from the wikimedia foundation (thankfully). Unfortunately, the wikipedia search engine as written thus far, doesn't work. :(")
    ∷ credit (codes "jwz") (codes "jwz") (codes "http://www.jwz.org/gruntle/design.html") (
        codes
          "I share jwz's preference for green on black screens. His gruntle columns kept me sane in a darker era of web development, and I always loved the subversive element of the about:jwz parameter of Mozilla in an otherwise bland, corporatized world.")
    ∷ credit (codes "rms") (codes "rms") (codes "http://www.stallman.org")
        (codes "If he didn't exist, we'd have had to invent him.")
    ∷ credit (codes "quotes") (codes "esr") (codes "http://esr.ibiblio.org/")
        (codes "With enough eyeballs, all bugs are shallow.")
    ∷ credit (codes "quotes") (codes "jwz") (codes "http://www.jwz.org/blog/") (
        codes
          "Some people, when confronted with a problem, think 'I know, I'll use regular expressions.' Now they have two problems.")
    ∷ credit (codes "quotes") (codes "mdt") (codes "http://nex-6.taht.net/") (
        codes
          "Some people, when confronted with a problem, think 'I know, I'll use IPv6.' Now they have two problems.")
    ∷ credit (codes "gnugol") (codes "gnugol") (codes "http://gnugol.taht.net/")
        (codes "BEHOLD: THE WORLD IS GREEN ON BLACK AND WITHOUT IMAGES, AND IT IS GOOD.")
    ∷ []

abbrev category : Bytes → Bytes → Category
category catagory desc = record { catagory = catagory; desc = desc }

-- `cmap`
unfoldable pub cmap : List Category
cmap =
    category (codes "license") (codes "Gnugol Licenses")
    ∷ category (codes "credits") (codes "Gnugol Contributor Credits")
    ∷ category (codes "source") (codes "Gnugol Source availability")
    ∷ category (codes "copyright") (codes "Gnugol Copyrights")
    ∷ category (codes "manual") (codes "Gnugol Manual")
    ∷ category (codes "keys") (codes "Gnugol API Keys")
    ∷ category (codes "all") (codes "Gnugol Internal Information")
    ∷ []
