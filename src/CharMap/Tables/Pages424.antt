-- ===== src/CharMap/Tables/Pages424.antt =====
-- Tables of libtnX/transmaps.h: code pages 424, 1026, 290.
use linux_sna.Base.{[], ◌∷◌, Bytes}

-- iso_8859_8_to_ibm424
abbrev pub iso_8859_8_to_ibm424 : Bytes
iso_8859_8_to_ibm424 =
    0 ∷ 1 ∷ 2 ∷ 3 ∷ 55 ∷ 45 ∷ 46 ∷ 47 ∷ 22 ∷ 5 ∷ 37 ∷ 11 ∷ 12 ∷ 13 ∷ 14 ∷ 15 ∷ 16 ∷ 17 ∷ 18 ∷ 19
    ∷ 60 ∷ 61 ∷ 50 ∷ 38 ∷ 24 ∷ 25 ∷ 63 ∷ 39 ∷ 28 ∷ 29 ∷ 30 ∷ 31 ∷ 64 ∷ 90 ∷ 127 ∷ 123 ∷ 91 ∷ 108
    ∷ 80 ∷ 125 ∷ 77 ∷ 93 ∷ 92 ∷ 78 ∷ 107 ∷ 96 ∷ 75 ∷ 97 ∷ 240 ∷ 241 ∷ 242 ∷ 243 ∷ 244 ∷ 245 ∷ 246
    ∷ 247 ∷ 248 ∷ 249 ∷ 122 ∷ 94 ∷ 76 ∷ 126 ∷ 110 ∷ 111 ∷ 124 ∷ 193 ∷ 194 ∷ 195 ∷ 196 ∷ 197 ∷ 198
    ∷ 199 ∷ 200 ∷ 201 ∷ 209 ∷ 210 ∷ 211 ∷ 212 ∷ 213 ∷ 214 ∷ 215 ∷ 216 ∷ 217 ∷ 226 ∷ 227 ∷ 228 ∷ 229
    ∷ 230 ∷ 231 ∷ 232 ∷ 233 ∷ 186 ∷ 224 ∷ 187 ∷ 176 ∷ 109 ∷ 121 ∷ 129 ∷ 130 ∷ 131 ∷ 132 ∷ 133 ∷ 134
    ∷ 135 ∷ 136 ∷ 137 ∷ 145 ∷ 146 ∷ 147 ∷ 148 ∷ 149 ∷ 150 ∷ 151 ∷ 152 ∷ 153 ∷ 162 ∷ 163 ∷ 164 ∷ 165
    ∷ 166 ∷ 167 ∷ 168 ∷ 169 ∷ 192 ∷ 79 ∷ 208 ∷ 161 ∷ 7 ∷ 32 ∷ 33 ∷ 34 ∷ 35 ∷ 36 ∷ 21 ∷ 6 ∷ 23 ∷ 40
    ∷ 41 ∷ 42 ∷ 43 ∷ 44 ∷ 9 ∷ 10 ∷ 27 ∷ 48 ∷ 49 ∷ 26 ∷ 51 ∷ 52 ∷ 53 ∷ 54 ∷ 8 ∷ 56 ∷ 57 ∷ 58 ∷ 59 ∷ 4
    ∷ 20 ∷ 62 ∷ 255 ∷ 116 ∷ 158 ∷ 74 ∷ 177 ∷ 159 ∷ 178 ∷ 106 ∷ 181 ∷ 189 ∷ 180 ∷ 191 ∷ 138 ∷ 95
    ∷ 202 ∷ 175 ∷ 188 ∷ 144 ∷ 120 ∷ 234 ∷ 250 ∷ 190 ∷ 160 ∷ 182 ∷ 179 ∷ 157 ∷ 218 ∷ 225 ∷ 139 ∷ 183
    ∷ 184 ∷ 185 ∷ 170 ∷ 142 ∷ 171 ∷ 172 ∷ 235 ∷ 236 ∷ 237 ∷ 238 ∷ 239 ∷ 155 ∷ 119 ∷ 173 ∷ 203 ∷ 204
    ∷ 205 ∷ 206 ∷ 207 ∷ 143 ∷ 115 ∷ 140 ∷ 141 ∷ 174 ∷ 114 ∷ 128 ∷ 156 ∷ 112 ∷ 118 ∷ 154 ∷ 219 ∷ 220
    ∷ 221 ∷ 222 ∷ 223 ∷ 65 ∷ 66 ∷ 67 ∷ 68 ∷ 69 ∷ 70 ∷ 71 ∷ 72 ∷ 73 ∷ 81 ∷ 82 ∷ 83 ∷ 84 ∷ 85 ∷ 86
    ∷ 87 ∷ 88 ∷ 89 ∷ 98 ∷ 99 ∷ 100 ∷ 101 ∷ 102 ∷ 103 ∷ 104 ∷ 105 ∷ 113 ∷ 251 ∷ 252 ∷ 253 ∷ 254 ∷ 117
    ∷ []

-- ibm424_to_iso_8859_8
abbrev pub ibm424_to_iso_8859_8 : Bytes
ibm424_to_iso_8859_8 =
    0 ∷ 1 ∷ 2 ∷ 3 ∷ 156 ∷ 9 ∷ 134 ∷ 127 ∷ 151 ∷ 141 ∷ 142 ∷ 11 ∷ 12 ∷ 13 ∷ 14 ∷ 15 ∷ 16 ∷ 17 ∷ 18
    ∷ 19 ∷ 157 ∷ 133 ∷ 8 ∷ 135 ∷ 24 ∷ 25 ∷ 146 ∷ 143 ∷ 28 ∷ 29 ∷ 30 ∷ 31 ∷ 128 ∷ 129 ∷ 130 ∷ 131
    ∷ 132 ∷ 10 ∷ 23 ∷ 27 ∷ 136 ∷ 137 ∷ 138 ∷ 139 ∷ 140 ∷ 5 ∷ 6 ∷ 7 ∷ 144 ∷ 145 ∷ 22 ∷ 147 ∷ 148
    ∷ 149 ∷ 150 ∷ 4 ∷ 152 ∷ 153 ∷ 154 ∷ 155 ∷ 20 ∷ 21 ∷ 158 ∷ 26 ∷ 32 ∷ 224 ∷ 225 ∷ 226 ∷ 227 ∷ 228
    ∷ 229 ∷ 230 ∷ 231 ∷ 232 ∷ 162 ∷ 46 ∷ 60 ∷ 40 ∷ 43 ∷ 124 ∷ 38 ∷ 233 ∷ 234 ∷ 235 ∷ 236 ∷ 237 ∷ 238
    ∷ 239 ∷ 240 ∷ 241 ∷ 33 ∷ 36 ∷ 42 ∷ 41 ∷ 59 ∷ 172 ∷ 45 ∷ 47 ∷ 242 ∷ 243 ∷ 244 ∷ 245 ∷ 246 ∷ 247
    ∷ 248 ∷ 249 ∷ 166 ∷ 44 ∷ 37 ∷ 95 ∷ 62 ∷ 63 ∷ 216 ∷ 250 ∷ 213 ∷ 209 ∷ 160 ∷ 255 ∷ 217 ∷ 201 ∷ 177
    ∷ 96 ∷ 58 ∷ 35 ∷ 64 ∷ 39 ∷ 61 ∷ 34 ∷ 214 ∷ 97 ∷ 98 ∷ 99 ∷ 100 ∷ 101 ∷ 102 ∷ 103 ∷ 104 ∷ 105
    ∷ 171 ∷ 187 ∷ 210 ∷ 211 ∷ 192 ∷ 208 ∷ 176 ∷ 106 ∷ 107 ∷ 108 ∷ 109 ∷ 110 ∷ 111 ∷ 112 ∷ 113 ∷ 114
    ∷ 218 ∷ 200 ∷ 215 ∷ 184 ∷ 161 ∷ 164 ∷ 181 ∷ 126 ∷ 115 ∷ 116 ∷ 117 ∷ 118 ∷ 119 ∷ 120 ∷ 121 ∷ 122
    ∷ 191 ∷ 193 ∷ 194 ∷ 202 ∷ 212 ∷ 174 ∷ 94 ∷ 163 ∷ 165 ∷ 183 ∷ 169 ∷ 167 ∷ 182 ∷ 188 ∷ 189 ∷ 190
    ∷ 91 ∷ 93 ∷ 175 ∷ 168 ∷ 180 ∷ 170 ∷ 123 ∷ 65 ∷ 66 ∷ 67 ∷ 68 ∷ 69 ∷ 70 ∷ 71 ∷ 72 ∷ 73 ∷ 173 ∷ 203
    ∷ 204 ∷ 205 ∷ 206 ∷ 207 ∷ 125 ∷ 74 ∷ 75 ∷ 76 ∷ 77 ∷ 78 ∷ 79 ∷ 80 ∷ 81 ∷ 82 ∷ 185 ∷ 219 ∷ 220
    ∷ 221 ∷ 222 ∷ 223 ∷ 92 ∷ 186 ∷ 83 ∷ 84 ∷ 85 ∷ 86 ∷ 87 ∷ 88 ∷ 89 ∷ 90 ∷ 178 ∷ 195 ∷ 196 ∷ 197
    ∷ 198 ∷ 199 ∷ 48 ∷ 49 ∷ 50 ∷ 51 ∷ 52 ∷ 53 ∷ 54 ∷ 55 ∷ 56 ∷ 57 ∷ 179 ∷ 251 ∷ 252 ∷ 253 ∷ 254
    ∷ 159 ∷ []

-- iso_8859_9_to_ibm1026
abbrev pub iso_8859_9_to_ibm1026 : Bytes
iso_8859_9_to_ibm1026 =
    0 ∷ 1 ∷ 2 ∷ 3 ∷ 55 ∷ 45 ∷ 46 ∷ 47 ∷ 22 ∷ 5 ∷ 37 ∷ 11 ∷ 12 ∷ 13 ∷ 14 ∷ 15 ∷ 16 ∷ 17 ∷ 18 ∷ 19
    ∷ 60 ∷ 61 ∷ 50 ∷ 38 ∷ 24 ∷ 25 ∷ 63 ∷ 39 ∷ 28 ∷ 29 ∷ 30 ∷ 31 ∷ 64 ∷ 79 ∷ 252 ∷ 236 ∷ 173 ∷ 108
    ∷ 80 ∷ 125 ∷ 77 ∷ 93 ∷ 92 ∷ 78 ∷ 107 ∷ 96 ∷ 75 ∷ 97 ∷ 240 ∷ 241 ∷ 242 ∷ 243 ∷ 244 ∷ 245 ∷ 246
    ∷ 247 ∷ 248 ∷ 249 ∷ 122 ∷ 94 ∷ 76 ∷ 126 ∷ 110 ∷ 111 ∷ 174 ∷ 193 ∷ 194 ∷ 195 ∷ 196 ∷ 197 ∷ 198
    ∷ 199 ∷ 200 ∷ 201 ∷ 209 ∷ 210 ∷ 211 ∷ 212 ∷ 213 ∷ 214 ∷ 215 ∷ 216 ∷ 217 ∷ 226 ∷ 227 ∷ 228 ∷ 229
    ∷ 230 ∷ 231 ∷ 232 ∷ 233 ∷ 104 ∷ 220 ∷ 172 ∷ 95 ∷ 109 ∷ 141 ∷ 129 ∷ 130 ∷ 131 ∷ 132 ∷ 133 ∷ 134
    ∷ 135 ∷ 136 ∷ 137 ∷ 145 ∷ 146 ∷ 147 ∷ 148 ∷ 149 ∷ 150 ∷ 151 ∷ 152 ∷ 153 ∷ 162 ∷ 163 ∷ 164 ∷ 165
    ∷ 166 ∷ 167 ∷ 168 ∷ 169 ∷ 72 ∷ 187 ∷ 140 ∷ 204 ∷ 7 ∷ 32 ∷ 33 ∷ 34 ∷ 35 ∷ 36 ∷ 21 ∷ 6 ∷ 23 ∷ 40
    ∷ 41 ∷ 42 ∷ 43 ∷ 44 ∷ 9 ∷ 10 ∷ 27 ∷ 48 ∷ 49 ∷ 26 ∷ 51 ∷ 52 ∷ 53 ∷ 54 ∷ 8 ∷ 56 ∷ 57 ∷ 58 ∷ 59 ∷ 4
    ∷ 20 ∷ 62 ∷ 255 ∷ 65 ∷ 170 ∷ 176 ∷ 177 ∷ 159 ∷ 178 ∷ 142 ∷ 181 ∷ 189 ∷ 180 ∷ 154 ∷ 138 ∷ 186
    ∷ 202 ∷ 175 ∷ 157 ∷ 144 ∷ 143 ∷ 234 ∷ 250 ∷ 190 ∷ 160 ∷ 182 ∷ 179 ∷ 82 ∷ 218 ∷ 155 ∷ 139 ∷ 183
    ∷ 184 ∷ 185 ∷ 171 ∷ 100 ∷ 101 ∷ 98 ∷ 102 ∷ 99 ∷ 103 ∷ 158 ∷ 74 ∷ 116 ∷ 113 ∷ 114 ∷ 115 ∷ 120
    ∷ 117 ∷ 118 ∷ 119 ∷ 90 ∷ 105 ∷ 237 ∷ 238 ∷ 235 ∷ 239 ∷ 123 ∷ 191 ∷ 128 ∷ 253 ∷ 254 ∷ 251 ∷ 127
    ∷ 91 ∷ 124 ∷ 89 ∷ 68 ∷ 69 ∷ 66 ∷ 70 ∷ 67 ∷ 71 ∷ 156 ∷ 192 ∷ 84 ∷ 81 ∷ 87 ∷ 83 ∷ 88 ∷ 85 ∷ 86
    ∷ 188 ∷ 208 ∷ 73 ∷ 205 ∷ 206 ∷ 203 ∷ 207 ∷ 161 ∷ 225 ∷ 112 ∷ 221 ∷ 222 ∷ 219 ∷ 224 ∷ 121 ∷ 106
    ∷ 223 ∷ []

-- ibm1026_to_iso_8859_9
abbrev pub ibm1026_to_iso_8859_9 : Bytes
ibm1026_to_iso_8859_9 =
    0 ∷ 1 ∷ 2 ∷ 3 ∷ 156 ∷ 9 ∷ 134 ∷ 127 ∷ 151 ∷ 141 ∷ 142 ∷ 11 ∷ 12 ∷ 13 ∷ 14 ∷ 15 ∷ 16 ∷ 17 ∷ 18
    ∷ 19 ∷ 157 ∷ 133 ∷ 8 ∷ 135 ∷ 24 ∷ 25 ∷ 146 ∷ 143 ∷ 28 ∷ 29 ∷ 30 ∷ 31 ∷ 128 ∷ 129 ∷ 130 ∷ 131
    ∷ 132 ∷ 10 ∷ 23 ∷ 27 ∷ 136 ∷ 137 ∷ 138 ∷ 139 ∷ 140 ∷ 5 ∷ 6 ∷ 7 ∷ 144 ∷ 145 ∷ 22 ∷ 147 ∷ 148
    ∷ 149 ∷ 150 ∷ 4 ∷ 152 ∷ 153 ∷ 154 ∷ 155 ∷ 20 ∷ 21 ∷ 158 ∷ 26 ∷ 32 ∷ 160 ∷ 226 ∷ 228 ∷ 224 ∷ 225
    ∷ 227 ∷ 229 ∷ 123 ∷ 241 ∷ 199 ∷ 46 ∷ 60 ∷ 40 ∷ 43 ∷ 33 ∷ 38 ∷ 233 ∷ 184 ∷ 235 ∷ 232 ∷ 237 ∷ 238
    ∷ 234 ∷ 236 ∷ 223 ∷ 208 ∷ 221 ∷ 42 ∷ 41 ∷ 59 ∷ 94 ∷ 45 ∷ 47 ∷ 194 ∷ 196 ∷ 192 ∷ 193 ∷ 195 ∷ 197
    ∷ 91 ∷ 209 ∷ 254 ∷ 44 ∷ 37 ∷ 95 ∷ 62 ∷ 63 ∷ 248 ∷ 201 ∷ 202 ∷ 203 ∷ 200 ∷ 205 ∷ 206 ∷ 207 ∷ 204
    ∷ 253 ∷ 58 ∷ 214 ∷ 222 ∷ 39 ∷ 61 ∷ 220 ∷ 216 ∷ 97 ∷ 98 ∷ 99 ∷ 100 ∷ 101 ∷ 102 ∷ 103 ∷ 104 ∷ 105
    ∷ 171 ∷ 187 ∷ 125 ∷ 96 ∷ 166 ∷ 177 ∷ 176 ∷ 106 ∷ 107 ∷ 108 ∷ 109 ∷ 110 ∷ 111 ∷ 112 ∷ 113 ∷ 114
    ∷ 170 ∷ 186 ∷ 230 ∷ 175 ∷ 198 ∷ 164 ∷ 181 ∷ 246 ∷ 115 ∷ 116 ∷ 117 ∷ 118 ∷ 119 ∷ 120 ∷ 121 ∷ 122
    ∷ 161 ∷ 191 ∷ 93 ∷ 36 ∷ 64 ∷ 174 ∷ 162 ∷ 163 ∷ 165 ∷ 183 ∷ 169 ∷ 167 ∷ 182 ∷ 188 ∷ 189 ∷ 190
    ∷ 172 ∷ 124 ∷ 239 ∷ 168 ∷ 180 ∷ 215 ∷ 231 ∷ 65 ∷ 66 ∷ 67 ∷ 68 ∷ 69 ∷ 70 ∷ 71 ∷ 72 ∷ 73 ∷ 173
    ∷ 244 ∷ 126 ∷ 242 ∷ 243 ∷ 245 ∷ 240 ∷ 74 ∷ 75 ∷ 76 ∷ 77 ∷ 78 ∷ 79 ∷ 80 ∷ 81 ∷ 82 ∷ 185 ∷ 251
    ∷ 92 ∷ 249 ∷ 250 ∷ 255 ∷ 252 ∷ 247 ∷ 83 ∷ 84 ∷ 85 ∷ 86 ∷ 87 ∷ 88 ∷ 89 ∷ 90 ∷ 178 ∷ 212 ∷ 35
    ∷ 210 ∷ 211 ∷ 213 ∷ 48 ∷ 49 ∷ 50 ∷ 51 ∷ 52 ∷ 53 ∷ 54 ∷ 55 ∷ 56 ∷ 57 ∷ 179 ∷ 219 ∷ 34 ∷ 217 ∷ 218
    ∷ 159 ∷ []

-- jis_x0201_to_ibm290
abbrev pub jis_x0201_to_ibm290 : Bytes
jis_x0201_to_ibm290 =
    0 ∷ 1 ∷ 2 ∷ 3 ∷ 55 ∷ 45 ∷ 46 ∷ 47 ∷ 22 ∷ 5 ∷ 37 ∷ 11 ∷ 12 ∷ 13 ∷ 14 ∷ 15 ∷ 16 ∷ 17 ∷ 18 ∷ 19
    ∷ 60 ∷ 61 ∷ 50 ∷ 38 ∷ 24 ∷ 25 ∷ 63 ∷ 39 ∷ 28 ∷ 29 ∷ 30 ∷ 31 ∷ 64 ∷ 90 ∷ 127 ∷ 123 ∷ 224 ∷ 108
    ∷ 80 ∷ 125 ∷ 77 ∷ 93 ∷ 92 ∷ 78 ∷ 107 ∷ 96 ∷ 75 ∷ 97 ∷ 240 ∷ 241 ∷ 242 ∷ 243 ∷ 244 ∷ 245 ∷ 246
    ∷ 247 ∷ 248 ∷ 249 ∷ 122 ∷ 94 ∷ 76 ∷ 126 ∷ 110 ∷ 111 ∷ 124 ∷ 193 ∷ 194 ∷ 195 ∷ 196 ∷ 197 ∷ 198
    ∷ 199 ∷ 200 ∷ 201 ∷ 209 ∷ 210 ∷ 211 ∷ 212 ∷ 213 ∷ 214 ∷ 215 ∷ 216 ∷ 217 ∷ 226 ∷ 227 ∷ 228 ∷ 229
    ∷ 230 ∷ 231 ∷ 232 ∷ 233 ∷ 218 ∷ 91 ∷ 185 ∷ 155 ∷ 109 ∷ 121 ∷ 178 ∷ 98 ∷ 99 ∷ 100 ∷ 101 ∷ 102
    ∷ 103 ∷ 104 ∷ 105 ∷ 106 ∷ 219 ∷ 221 ∷ 95 ∷ 203 ∷ 181 ∷ 112 ∷ 113 ∷ 114 ∷ 115 ∷ 116 ∷ 117 ∷ 118
    ∷ 119 ∷ 120 ∷ 220 ∷ 184 ∷ 179 ∷ 79 ∷ 222 ∷ 161 ∷ 7 ∷ 32 ∷ 33 ∷ 34 ∷ 35 ∷ 36 ∷ 21 ∷ 6 ∷ 23 ∷ 40
    ∷ 41 ∷ 42 ∷ 43 ∷ 44 ∷ 9 ∷ 10 ∷ 27 ∷ 48 ∷ 49 ∷ 26 ∷ 51 ∷ 52 ∷ 53 ∷ 54 ∷ 8 ∷ 56 ∷ 57 ∷ 58 ∷ 59 ∷ 4
    ∷ 20 ∷ 62 ∷ 255 ∷ 160 ∷ 65 ∷ 66 ∷ 67 ∷ 68 ∷ 69 ∷ 70 ∷ 71 ∷ 72 ∷ 73 ∷ 81 ∷ 82 ∷ 83 ∷ 84 ∷ 85 ∷ 86
    ∷ 88 ∷ 129 ∷ 130 ∷ 131 ∷ 132 ∷ 133 ∷ 134 ∷ 135 ∷ 136 ∷ 137 ∷ 138 ∷ 140 ∷ 141 ∷ 142 ∷ 143 ∷ 144
    ∷ 145 ∷ 146 ∷ 147 ∷ 148 ∷ 149 ∷ 150 ∷ 151 ∷ 152 ∷ 153 ∷ 154 ∷ 157 ∷ 158 ∷ 159 ∷ 162 ∷ 163 ∷ 164
    ∷ 165 ∷ 166 ∷ 167 ∷ 168 ∷ 169 ∷ 170 ∷ 172 ∷ 173 ∷ 174 ∷ 175 ∷ 186 ∷ 187 ∷ 188 ∷ 189 ∷ 190 ∷ 191
    ∷ 180 ∷ 225 ∷ 128 ∷ 183 ∷ 139 ∷ 171 ∷ 87 ∷ 176 ∷ 89 ∷ 177 ∷ 234 ∷ 235 ∷ 236 ∷ 237 ∷ 238 ∷ 239
    ∷ 223 ∷ 192 ∷ 74 ∷ 205 ∷ 206 ∷ 207 ∷ 208 ∷ 156 ∷ 182 ∷ 202 ∷ 250 ∷ 251 ∷ 252 ∷ 253 ∷ 254 ∷ 204
    ∷ []

-- ibm290_to_jis_x0201
abbrev pub ibm290_to_jis_x0201 : Bytes
ibm290_to_jis_x0201 =
    0 ∷ 1 ∷ 2 ∷ 3 ∷ 156 ∷ 9 ∷ 134 ∷ 127 ∷ 151 ∷ 141 ∷ 142 ∷ 11 ∷ 12 ∷ 13 ∷ 14 ∷ 15 ∷ 16 ∷ 17 ∷ 18
    ∷ 19 ∷ 157 ∷ 133 ∷ 8 ∷ 135 ∷ 24 ∷ 25 ∷ 146 ∷ 143 ∷ 28 ∷ 29 ∷ 30 ∷ 31 ∷ 128 ∷ 129 ∷ 130 ∷ 131
    ∷ 132 ∷ 10 ∷ 23 ∷ 27 ∷ 136 ∷ 137 ∷ 138 ∷ 139 ∷ 140 ∷ 5 ∷ 6 ∷ 7 ∷ 144 ∷ 145 ∷ 22 ∷ 147 ∷ 148
    ∷ 149 ∷ 150 ∷ 4 ∷ 152 ∷ 153 ∷ 154 ∷ 155 ∷ 20 ∷ 21 ∷ 158 ∷ 26 ∷ 32 ∷ 161 ∷ 162 ∷ 163 ∷ 164 ∷ 165
    ∷ 166 ∷ 167 ∷ 168 ∷ 169 ∷ 242 ∷ 46 ∷ 60 ∷ 40 ∷ 43 ∷ 124 ∷ 38 ∷ 170 ∷ 171 ∷ 172 ∷ 173 ∷ 174 ∷ 175
    ∷ 230 ∷ 176 ∷ 232 ∷ 33 ∷ 92 ∷ 42 ∷ 41 ∷ 59 ∷ 109 ∷ 45 ∷ 47 ∷ 98 ∷ 99 ∷ 100 ∷ 101 ∷ 102 ∷ 103
    ∷ 104 ∷ 105 ∷ 106 ∷ 44 ∷ 37 ∷ 95 ∷ 62 ∷ 63 ∷ 112 ∷ 113 ∷ 114 ∷ 115 ∷ 116 ∷ 117 ∷ 118 ∷ 119 ∷ 120
    ∷ 96 ∷ 58 ∷ 35 ∷ 64 ∷ 39 ∷ 61 ∷ 34 ∷ 226 ∷ 177 ∷ 178 ∷ 179 ∷ 180 ∷ 181 ∷ 182 ∷ 183 ∷ 184 ∷ 185
    ∷ 186 ∷ 228 ∷ 187 ∷ 188 ∷ 189 ∷ 190 ∷ 191 ∷ 192 ∷ 193 ∷ 194 ∷ 195 ∷ 196 ∷ 197 ∷ 198 ∷ 199 ∷ 200
    ∷ 201 ∷ 94 ∷ 247 ∷ 202 ∷ 203 ∷ 204 ∷ 160 ∷ 126 ∷ 205 ∷ 206 ∷ 207 ∷ 208 ∷ 209 ∷ 210 ∷ 211 ∷ 212
    ∷ 213 ∷ 229 ∷ 214 ∷ 215 ∷ 216 ∷ 217 ∷ 231 ∷ 233 ∷ 97 ∷ 123 ∷ 224 ∷ 111 ∷ 248 ∷ 227 ∷ 122 ∷ 93
    ∷ 218 ∷ 219 ∷ 220 ∷ 221 ∷ 222 ∷ 223 ∷ 241 ∷ 65 ∷ 66 ∷ 67 ∷ 68 ∷ 69 ∷ 70 ∷ 71 ∷ 72 ∷ 73 ∷ 249
    ∷ 110 ∷ 255 ∷ 243 ∷ 244 ∷ 245 ∷ 246 ∷ 74 ∷ 75 ∷ 76 ∷ 77 ∷ 78 ∷ 79 ∷ 80 ∷ 81 ∷ 82 ∷ 91 ∷ 107
    ∷ 121 ∷ 108 ∷ 125 ∷ 240 ∷ 36 ∷ 225 ∷ 83 ∷ 84 ∷ 85 ∷ 86 ∷ 87 ∷ 88 ∷ 89 ∷ 90 ∷ 234 ∷ 235 ∷ 236
    ∷ 237 ∷ 238 ∷ 239 ∷ 48 ∷ 49 ∷ 50 ∷ 51 ∷ 52 ∷ 53 ∷ 54 ∷ 55 ∷ 56 ∷ 57 ∷ 250 ∷ 251 ∷ 252 ∷ 253
    ∷ 254 ∷ 159 ∷ []
