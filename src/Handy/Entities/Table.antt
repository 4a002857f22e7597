-- ===== src/Handy/Entities/Table.antt =====
-- The table `emap` of src/common/handy.c, in the order of the source and in four runs.
use gnugol.Base.{ℕ, List, [], ◌∷◌, ◌++◌, Bytes, codes}
use Prim.Native.String.{String}

-- `struct entitymap`: the name of an entity and its code point.
pub record EntityMap : Type 0 where
  pub entity : Bytes
  pub utf8 : ℕ

-- One row of the initialiser.
abbrev row : String → ℕ → EntityMap
row name value = record { entity = codes name; utf8 = value }

-- The rows from "AElig" to "Zeta".
abbrev upper_entities : List EntityMap
upper_entities =
    row "AElig" 198
    ∷ row "Aacute" 193
    ∷ row "Acirc" 194
    ∷ row "Agrave" 192
    ∷ row "Alpha" 913
    ∷ row "Aring" 197
    ∷ row "Atilde" 195
    ∷ row "Auml" 196
    ∷ row "Beta" 914
    ∷ row "Ccedil" 199
    ∷ row "Chi" 935
    ∷ row "Dagger" 8225
    ∷ row "Delta" 916
    ∷ row "ETH" 208
    ∷ row "Eacute" 201
    ∷ row "Ecirc" 202
    ∷ row "Egrave" 200
    ∷ row "Epsilon" 917
    ∷ row "Eta" 919
    ∷ row "Euml" 203
    ∷ row "Gamma" 915
    ∷ row "Iacute" 205
    ∷ row "Icirc" 206
    ∷ row "Igrave" 204
    ∷ row "Iota" 921
    ∷ row "Iuml" 207
    ∷ row "Kappa" 922
    ∷ row "Lambda" 923
    ∷ row "Mu" 924
    ∷ row "Ntilde" 209
    ∷ row "Nu" 925
    ∷ row "OElig" 338
    ∷ row "Oacute" 211
    ∷ row "Ocirc" 212
    ∷ row "Ograve" 210
    ∷ row "Omega" 937
    ∷ row "Omicron" 927
    ∷ row "Oslash" 216
    ∷ row "Otilde" 213
    ∷ row "Ouml" 214
    ∷ row "Phi" 934
    ∷ row "Pi" 928
    ∷ row "Prime" 8243
    ∷ row "Psi" 936
    ∷ row "Rho" 929
    ∷ row "Scaron" 352
    ∷ row "Sigma" 931
    ∷ row "THORN" 222
    ∷ row "Tau" 932
    ∷ row "Theta" 920
    ∷ row "Uacute" 218
    ∷ row "Ucirc" 219
    ∷ row "Ugrave" 217
    ∷ row "Upsilon" 933
    ∷ row "Uuml" 220
    ∷ row "Xi" 926
    ∷ row "Yacute" 221
    ∷ row "Yuml" 376
    ∷ row "Zeta" 918
    ∷ []

-- The rows from "aacute" to "hellip".
abbrev a_to_h_entities : List EntityMap
a_to_h_entities =
    row "aacute" 225
    ∷ row "acirc" 226
    ∷ row "acute" 180
    ∷ row "aelig" 230
    ∷ row "agrave" 224
    ∷ row "alefsym" 8501
    ∷ row "alpha" 945
    ∷ row "amp" 38
    ∷ row "and" 8743
    ∷ row "ang" 8736
    ∷ row "aring" 229
    ∷ row "asymp" 8776
    ∷ row "atilde" 227
    ∷ row "auml" 228
    ∷ row "bdquo" 8222
    ∷ row "beta" 946
    ∷ row "brvbar" 166
    ∷ row "bull" 8226
    ∷ row "cap" 8745
    ∷ row "ccedil" 231
    ∷ row "cedil" 184
    ∷ row "cent" 162
    ∷ row "chi" 967
    ∷ row "circ" 710
    ∷ row "clubs" 9827
    ∷ row "cong" 8773
    ∷ row "copy" 169
    ∷ row "crarr" 8629
    ∷ row "cup" 8746
    ∷ row "curren" 164
    ∷ row "dArr" 8659
    ∷ row "dagger" 8224
    ∷ row "darr" 8595
    ∷ row "deg" 176
    ∷ row "delta" 948
    ∷ row "diams" 9830
    ∷ row "divide" 247
    ∷ row "eacute" 233
    ∷ row "ecirc" 234
    ∷ row "egrave" 232
    ∷ row "empty" 8709
    ∷ row "emsp" 8195
    ∷ row "ensp" 8194
    ∷ row "epsilon" 949
    ∷ row "equiv" 8801
    ∷ row "eta" 951
    ∷ row "eth" 240
    ∷ row "euml" 235
    ∷ row "euro" 8364
    ∷ row "exist" 8707
    ∷ row "fnof" 402
    ∷ row "forall" 8704
    ∷ row "frac12" 189
    ∷ row "frac14" 188
    ∷ row "frac34" 190
    ∷ row "frasl" 8260
    ∷ row "gamma" 947
    ∷ row "ge" 8805
    ∷ row "gt" 62
    ∷ row "hArr" 8660
    ∷ row "harr" 8596
    ∷ row "hearts" 9829
    ∷ row "hellip" 8230
    ∷ []

-- The rows from "iacute" to "ouml".
abbrev i_to_o_entities : List EntityMap
i_to_o_entities =
    row "iacute" 237
    ∷ row "icirc" 238
    ∷ row "iexcl" 161
    ∷ row "igrave" 236
    ∷ row "image" 8465
    ∷ row "infin" 8734
    ∷ row "int" 8747
    ∷ row "iota" 953
    ∷ row "iquest" 191
    ∷ row "isin" 8712
    ∷ row "iuml" 239
    ∷ row "kappa" 954
    ∷ row "lArr" 8656
    ∷ row "lambda" 955
    ∷ row "lang" 9001
    ∷ row "laquo" 171
    ∷ row "larr" 8592
    ∷ row "lceil" 8968
    ∷ row "ldquo" 8220
    ∷ row "le" 8804
    ∷ row "lfloor" 8970
    ∷ row "lowast" 8727
    ∷ row "loz" 9674
    ∷ row "lrm" 8206
    ∷ row "lsaquo" 8249
    ∷ row "lsquo" 8216
    ∷ row "lt" 60
    ∷ row "macr" 175
    ∷ row "mdash" 8212
    ∷ row "micro" 181
    ∷ row "middot" 183
    ∷ row "minus" 8722
    ∷ row "mu" 956
    ∷ row "nabla" 8711
    ∷ row "nbsp" 160
    ∷ row "ndash" 8211
    ∷ row "ne" 8800
    ∷ row "ni" 8715
    ∷ row "not" 172
    ∷ row "notin" 8713
    ∷ row "nsub" 8836
    ∷ row "ntilde" 241
    ∷ row "nu" 957
    ∷ row "oacute" 243
    ∷ row "ocirc" 244
    ∷ row "oelig" 339
    ∷ row "ograve" 242
    ∷ row "oline" 8254
    ∷ row "omega" 969
    ∷ row "omicron" 959
    ∷ row "oplus" 8853
    ∷ row "or" 8744
    ∷ row "ordf" 170
    ∷ row "ordm" 186
    ∷ row "oslash" 248
    ∷ row "otilde" 245
    ∷ row "otimes" 8855
    ∷ row "ouml" 246
    ∷ []

-- The rows from "para" to "zwnj".
abbrev p_to_z_entities : List EntityMap
p_to_z_entities =
    row "para" 182
    ∷ row "part" 8706
    ∷ row "permil" 8240
    ∷ row "perp" 8869
    ∷ row "phi" 966
    ∷ row "pi" 960
    ∷ row "piv" 982
    ∷ row "plusmn" 177
    ∷ row "pound" 163
    ∷ row "prime" 8242
    ∷ row "prod" 8719
    ∷ row "prop" 8733
    ∷ row "psi" 968
    ∷ row "quot" 34
    ∷ row "rArr" 8658
    ∷ row "radic" 8730
    ∷ row "rang" 9002
    ∷ row "raquo" 187
    ∷ row "rarr" 8594
    ∷ row "rceil" 8969
    ∷ row "rdquo" 8221
    ∷ row "real" 8476
    ∷ row "reg" 174
    ∷ row "rfloor" 8971
    ∷ row "rho" 961
    ∷ row "rlm" 8207
    ∷ row "rsaquo" 8250
    ∷ row "rsquo" 8217
    ∷ row "sbquo" 8218
    ∷ row "scaron" 353
    ∷ row "sdot" 8901
    ∷ row "sect" 167
    ∷ row "shy" 173
    ∷ row "sigma" 963
    ∷ row "sigmaf" 962
    ∷ row "sim" 8764
    ∷ row "spades" 9824
    ∷ row "sub" 8834
    ∷ row "sube" 8838
    ∷ row "sum" 8721
    ∷ row "sup" 8835
    ∷ row "sup1" 185
    ∷ row "sup2" 178
    ∷ row "sup3" 179
    ∷ row "supe" 8839
    ∷ row "szlig" 223
    ∷ row "tau" 964
    ∷ row "there4" 8756
    ∷ row "theta" 952
    ∷ row "thetasym" 977
    ∷ row "thinsp" 8201
    ∷ row "thorn" 254
    ∷ row "tilde" 732
    ∷ row "times" 215
    ∷ row "trade" 8482
    ∷ row "uArr" 8657
    ∷ row "uacute" 250
    ∷ row "uarr" 8593
    ∷ row "ucirc" 251
    ∷ row "ugrave" 249
    ∷ row "uml" 168
    ∷ row "upsih" 978
    ∷ row "upsilon" 965
    ∷ row "uuml" 252
    ∷ row "weierp" 8472
    ∷ row "xi" 958
    ∷ row "yacute" 253
    ∷ row "yen" 165
    ∷ row "yuml" 255
    ∷ row "zeta" 950
    ∷ row "zwj" 8205
    ∷ row "zwnj" 8204
    ∷ []

unfoldable pub emap : List EntityMap
emap = upper_entities ++ (a_to_h_entities ++ (i_to_o_entities ++ p_to_z_entities))
