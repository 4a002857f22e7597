-- ===== src/Format/Tables.antt =====
-- The tables of src/common/format.c: a line of output for each choice of URL, title and snippet.
-- The index is 1 with a URL, plus 2 with a title, plus 4 with a snippet.
use gnugol.Base.{List, [], ◌∷◌, Bytes, codes}

unfoldable pub levels : List Bytes
levels = codes "" ∷ codes "* " ∷ codes "** " ∷ codes "*** " ∷ codes "**** " ∷ codes "***** " ∷ []

unfoldable pub hashes : List Bytes
hashes = codes "" ∷ codes "# " ∷ codes "## " ∷ codes "### " ∷ codes "#### " ∷ codes "##### " ∷ []

unfoldable pub org_format_str : List Bytes
org_format_str =
    codes "%s%s%s%s%s"
    ∷ codes "%s[[%s]]%s%s%s\n"
    ∷ codes "%s%s[[%s]]%s%s\n"
    ∷ codes "%s[[%s][%s]]%s%s\n"
    ∷ codes "%s%s%s%s%s\n"
    ∷ codes "%s[[%s]]%s\n%s%s\n"
    ∷ codes "%s%s[[%s]]%s%s\n"
    ∷ codes "%s[[%s][%s]]\n%s%s\n"
    ∷ []

unfoldable pub org_format_str_long : List Bytes
org_format_str_long =
    codes "%s%s%s%s%s%s"
    ∷ codes "%s[[%s]]%s%s%s%s\n"
    ∷ codes "%s%s[[%s]]%s%s%s\n"
    ∷ codes "%s[[%s][%s]] %s%s%s\n"
    ∷ codes "%s%s%s%s%s%s\n"
    ∷ codes "%s[[%s]]%s\n%s%s%s\n"
    ∷ codes "%s%s[[%s]]%s%s%s\n"
    ∷ codes "%s[[%s][%s]]%s\n%s%s\n"
    ∷ []

unfoldable pub wiki_format_str : List Bytes
wiki_format_str =
    codes "%s%s%s%s%s"
    ∷ codes "%s[[%s]]%s%s%s\n"
    ∷ codes "%s%s[[%s]]%s%s\n"
    ∷ codes "%s[[%s][%s]]%s%s\n"
    ∷ codes "%s%s%s%s%s\n"
    ∷ codes "%s[[%s]]%s\n%s%s\n"
    ∷ codes "%s%s[[%s]]%s%s\n"
    ∷ codes "%s[[%s|%s]]\n%s%s\n"
    ∷ []

unfoldable pub text_format_str : List Bytes
text_format_str =
    codes "%s%s%s"
    ∷ codes "%s%s%s\n"
    ∷ codes "%s%s%s\n"
    ∷ codes "%s %s%s\n"
    ∷ codes "%s%s%s\n"
    ∷ codes "%s %s%s\n"
    ∷ codes "%s%s %s\n"
    ∷ codes "%s %s\n%s\n"
    ∷ []

unfoldable pub html_format_str : List Bytes
html_format_str =
    codes "%s%s%s"
    ∷ codes "<p><a href=\"%s\">See LINK</a>%s%s</p>"
    ∷ codes "<p>%s%s%s</p>"
    ∷ codes "<p><a href=\"%s\">%s</a>%s</p>"
    ∷ codes "<p>%s%s%s</p>"
    ∷ codes "<p><a href=\"%s\">%s%s</a></p>"
    ∷ codes "<p>%s%s: %s</p>"
    ∷ codes "<p><a href=\"%s\">%s</a> %s</p>"
    ∷ []

unfoldable pub mdwn_format_str : List Bytes
mdwn_format_str =
    codes "%s%s%s%s%s"
    ∷ codes "%s%s(%s)%s%s\n"
    ∷ codes "%s%s%s%s%s\n"
    ∷ codes "%s%s(%s)%s%s\n"
    ∷ codes "%s%s%s%s%s\n"
    ∷ codes "%s[%s]%s%s(%s)\n"
    ∷ codes "%s%s%s %s%s\n"
    ∷ codes "%s[%s](%s)\n%s%s\n"
    ∷ []

unfoldable pub textile_format_str : List Bytes
textile_format_str =
    codes "%s%s%s%s%s"
    ∷ codes "%s\"%s\":%s\n%s%s\n"
    ∷ codes "%s\"%s\":%s\n%s%s\n"
    ∷ codes "%s\"%s\":%s\n%s%s\n"
    ∷ codes "%s\"%s\":%s\n%s%s\n"
    ∷ codes "%s\"%s\":%s\n%s%s\n"
    ∷ codes "%s\"%s\":%s\n%s%s\n"
    ∷ codes "%s\"%s\":%s\n%s%s\n"
    ∷ []
